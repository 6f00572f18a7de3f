-- ===== src/Rainblock/Content/Placed.antt =====
-- What a new branch holds: place_value and under_prefix of `Insert`.
use extended_hypertrie_authe.Prelude.{
  ℕ, zero, suc, [], ◌∷◌, ◌++◌, Option, none, true, false, ◌==◌, ==_iff, ◌≡◌, ◌≢◌, inl, inr, refl,
  sym, ap, fun_ext, ◌∙◌, arith, list_beq, list_beq_iff, Bool-cases, Option-cases,
}
use extended_hypertrie_authe.Prelude.Options.{◌>>=◌}
use extended_hypertrie_authe.Serde.{Bytes}
use extended_hypertrie_authe.Rainblock.Nibble.{Nibbles, strip_prefix}
use extended_hypertrie_authe.Rainblock.Node.{
  TrieNode, leaf, branch, extension, ChildRef, null, owned, TrieNodeExt, ChildRefGroup, seal,
  child_at, set_child, group_length, null_group, empty_group,
}
use extended_hypertrie_authe.Rainblock.Insert.{place_value, under_prefix}
use extended_hypertrie_authe.Rainblock.Content.{
  stored, look, find, find_child, AreNibbles, IsTrie, AreTries,
}
use extended_hypertrie_authe.Rainblock.Content.Steps.{
  update, graft, graft-update, find-extension, group_length-set_child, child_at-null_group,
}
use extended_hypertrie_authe.Rainblock.Content.Frames.{
  IsFrame, find-with_child, strip_prefix_first, strip_prefix_nil,
}
use extended_hypertrie_authe.Rainblock.Content.Rebuild.{graft-none, AreTries-set_child}

abbrev pub nothing : Nibbles → Option Bytes
nothing key = none

pub graft-nothing : (prefix : Nibbles) → graft prefix nothing nothing ≡ nothing
graft-nothing prefix = fun_ext λ key. elim (Option-cases (strip_prefix prefix key)) [
  | inl e ↦ rw (graft, e) refl
  | inr (rest, e) ↦ rw (graft, e) refl
]

pub graft_nil : (x y : Nibbles → Option Bytes) (key : Nibbles) → graft [] x y key ≡ x key
unfolding strip_prefix
graft_nil x y key = refl

strip_prefix-strip_prefix :
    (p q key : Nibbles) → strip_prefix (p ++ q) key ≡ (strip_prefix p key >>= strip_prefix q)
unfolding strip_prefix
strip_prefix-strip_prefix [] q key = refl
strip_prefix-strip_prefix (x ∷ p) q [] = refl
strip_prefix-strip_prefix (x ∷ p) q (y ∷ key) = ground (arith, strip_prefix-strip_prefix p q key)

pub graft-append :
    (p q : Nibbles) (x : Nibbles → Option Bytes)
    → graft (p ++ q) x nothing ≡ graft p (graft q x nothing) nothing
graft-append p q x = fun_ext λ key.
    let both = strip_prefix-strip_prefix p q key in
    elim (Option-cases (strip_prefix p key)) [
      | inl e ↦ rw (graft, both, e) refl
      | inr (rest, e) ↦ rw (graft, both, e) refl
    ]

pub update_comm :
    (x : Nibbles → Option Bytes) (a b : Nibbles) (v w : Option Bytes)
    → list_beq a b ≡ false
    → update (update x a v) b w ≡ update (update x b w) a v
update_comm x a b v w h =
    fun_ext λ key. ground (arith, list_beq_iff a key, list_beq_iff b key, list_beq_iff a b)

module _ {H : Type 0} (load : H → Option (TrieNodeExt H)) (Known : H → Type 0) where
  -- What a branch holds below one of its children.
  pub graft_own_branch :
      (children : ChildRefGroup H) (value : Bytes) (i : ℕ) (key : Nibbles)
      → graft
          (i ∷ [])
          (find_child load (child_at children i))
          (find load (branch children value))
          key
        ≡ find load (branch children value) key
  unfolding look
  graft_own_branch children value i [] =
      graft-none (i ∷ []) _ (find load (branch children value)) [] (strip_prefix_nil i)
  graft_own_branch children value i (j ∷ key) = elim (Bool-cases (i == j)) [
    | inl hit ↦
        let same : i ≡ j = (==_iff i j).0 hit in
        rw (graft, strip_prefix_first i j key true hit)
          (ap (λ (k : ℕ). find_child load (child_at children k) key) same)
    | inr miss ↦
        graft-none (i ∷ []) (find_child load (child_at children i))
          (find load (branch children value)) (j ∷ key) (strip_prefix_first i j key false miss)
  ]

  abbrev pub Vacant : Nibbles → ChildRefGroup H → Type 0
  Vacant [] children = Unit
  Vacant (i ∷ key) children = child_at children i ≡ null

  -- A new leaf at a child that was null.
  pub find-new_leaf :
      (children : ChildRefGroup H) (value : Bytes) (i : ℕ) (rest : Nibbles) (val : Bytes)
      → IsFrame load Known (branch children value) i
      → child_at children i ≡ null
      → find load (branch (set_child children i (owned (seal (leaf rest val)))) value)
        ≡ update (find load (branch children value)) (i ∷ rest) (stored val)
  unfolding look
  find-new_leaf children value i rest val frame gone =
      let old = find load (branch children value) in
      let below : graft (i ∷ []) nothing old ≡ old =
        ap (λ (c : ChildRef H). graft (i ∷ []) (find_child load c) old) (sym gone)
        ∙ fun_ext (graft_own_branch children value i) in
      find-with_child load Known (branch children value) i (owned (seal (leaf rest val))) frame
      ∙ (fun_ext (graft-update (i ∷ []) nothing old rest (stored val))
          ∙ ap (λ (x : Nibbles → Option Bytes). update x (i ∷ rest) (stored val)) below)

  pub new_value :
      (children : ChildRefGroup H) (value val : Bytes) (key : Nibbles)
      → find load (branch children val) key
        ≡ update (find load (branch children value)) [] (stored val) key
  unfolding look list_beq
  new_value children value val [] = refl
  new_value children value val (i ∷ key) = refl

  -- A place in a branch, with the shape of what stands there.
  pub find-place_value :
      (key : Nibbles) (val : Bytes) (children : ChildRefGroup H) (value : Bytes)
      → group_length children ≡ 16
      → AreTries load Known children
      → AreNibbles load key
      → Vacant key children
      → val ≢ []
      → let new = place_value key val (children, value) in
        (find load (branch new.0 new.1)
          ≡ update (find load (branch children value)) key (stored val))
        × (group_length new.0 ≡ 16)
        × AreTries load Known new.0
  unfolding place_value look list_beq
  find-place_value [] val children value len t d vacant full =
      (fun_ext (new_value children value val), len, t)
  find-place_value (i ∷ key) val children value len t d vacant full = (
    find-new_leaf children value i key val (len, t, d.0) vacant,
    group_length-set_child children i (owned (seal (leaf key val))) ∙ len,
    AreTries-set_child load Known children i (owned (seal (leaf key val))) t (d.1, full),
  )

  pub find-extension_graft :
      (p : ℕ) (rest : Nibbles) (child : ChildRef H)
      → find load (extension (p ∷ rest) child) ≡ graft (p ∷ rest) (find_child load child) nothing
  find-extension_graft p rest child = fun_ext λ key.
      let whole = find-extension load p rest child key in
      elim (Option-cases (strip_prefix (p ∷ rest) key)) [
        | inl e ↦ whole ∙ rw (e, graft) refl
        | inr (k, e) ↦ whole ∙ rw (e, graft) refl
      ]

  pub find-under_prefix :
      (prefix : Nibbles) (node : TrieNode H)
      → find load (under_prefix prefix node) ≡ graft prefix (find load node) nothing
  unfolding under_prefix
  find-under_prefix [] node = fun_ext λ key. sym (graft_nil (find load node) nothing key)
  find-under_prefix (p ∷ rest) node = find-extension_graft p rest (owned (seal node))

  pub IsTrie-under_prefix :
      (prefix : Nibbles) (children : ChildRefGroup H) (value : Bytes)
      → AreNibbles load prefix
      → group_length children ≡ 16
      → AreTries load Known children
      → IsTrie load Known (under_prefix prefix (branch children value))
  unfolding under_prefix
  IsTrie-under_prefix [] children value d len t = (len, t)
  IsTrie-under_prefix (p ∷ rest) children value d len t =
      (d, (λ e. cc), (len, t), (branch children value, refl, tt))

  find_empty : (key : Nibbles) → find load (branch empty_group []) key ≡ none
  unfolding look
  find_empty [] = refl
  find_empty (i ∷ key) = ap (λ (c : ChildRef H). find_child load c key) (child_at-null_group 16 i)

  pub find-empty_group : find load (branch empty_group []) ≡ nothing
  find-empty_group = fun_ext find_empty

  pub AreTries-null_group : (n : ℕ) → AreTries load Known (null_group n)
  AreTries-null_group zero = tt
  AreTries-null_group (suc n) = (tt, AreTries-null_group n)
