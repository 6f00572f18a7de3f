-- ===== src/Rainblock/Content/Parted.antt =====
-- Two keys under a new branch: insert_on_leaf of asb-authdb/rainblock-trie/src/rain_mpt.rs.
use extended_hypertrie_authe.Prelude.{
  ℕ, suc, ◌+◌, ◌<◌, [], ◌∷◌, ◌++◌, Option, none, some, true, false, ◌==◌, ==_iff, ◌≡◌, ◌≢◌, inl,
  inr, refl, sym, ap, ap₂, fun_ext, subst, ◌∙◌, arith, length, drop, get_elem?, list_beq,
  list_beq_iff, Bool-cases, All-append_left, All-append_right,
}
use extended_hypertrie_authe.Serde.{Bytes}
use extended_hypertrie_authe.Rainblock.Nibble.{Nibbles, strip_prefix, common_prefix}
use extended_hypertrie_authe.Rainblock.Node.{
  TrieNode, leaf, branch, owned, TrieNodeExt, ChildRefGroup, seal, group_length, empty_group,
}
use extended_hypertrie_authe.Rainblock.Insert.{place_value, insert_on_leaf}
use extended_hypertrie_authe.Rainblock.Content.{stored, look, find, IsBranch, AreNibbles, IsTrie}
use extended_hypertrie_authe.Rainblock.Content.Steps.{
  update, graft, graft-update, child_at-set_child, child_at-null_group,
}
use extended_hypertrie_authe.Rainblock.Content.Placed.{
  nothing, graft-nothing, update_comm, Vacant, find-place_value, IsTrie-under_prefix,
  find-under_prefix, find-empty_group, AreTries-null_group,
}

-- How two keys part.
abbrev pub Parts : Nibbles → Nibbles → Type 0
Parts a b = let p = common_prefix a b in (a ≡ p ++ drop (length p) a) × (b ≡ p ++ drop (length p) b)

pub common_prefix-Parts : (a b : Nibbles) → Parts a b
unfolding common_prefix
common_prefix-Parts [] b = (refl, refl)
common_prefix-Parts (x ∷ a) [] = (refl, refl)
common_prefix-Parts (x ∷ a) (y ∷ b) = elim (Bool-cases (x == y)) [
  | inl e ↦
      let (left, right) = common_prefix-Parts a b in
      rw e (
        ap (λ (k : Nibbles). x ∷ k) left,
        ap₂ (λ (i : ℕ) (k : Nibbles). i ∷ k) (sym ((==_iff x y).0 e)) right,
      )
  | inr e ↦ rw e (refl, refl)
]

-- The keys differ where both go on.
abbrev pub Differ : Nibbles → Nibbles → Type 0
Differ (x ∷ a) (y ∷ b) = x ≢ y
Differ _ _ = Unit

pub common_prefix-Differ :
    (a b : Nibbles)
    → Differ (drop (length (common_prefix a b)) a) (drop (length (common_prefix a b)) b)
unfolding common_prefix
common_prefix-Differ [] b = tt
common_prefix-Differ (x ∷ a) [] = tt
common_prefix-Differ (x ∷ a) (y ∷ b) = elim (Bool-cases (x == y)) [
  | inl e ↦ rw e (common_prefix-Differ a b)
  | inr e ↦ rw e (λ (same : x ≡ y). let hit = (==_iff x y).1 same in cc)
]

list_beq_sym : (a b : Nibbles) → list_beq a b ≡ false → list_beq b a ≡ false
list_beq_sym a b h = ground (arith, list_beq_iff a b, list_beq_iff b a)

-- Two keys under their common prefix.
graft-two_updates :
    (p a b first second : Nibbles) (v w : Option Bytes)
    → first ≡ p ++ a
    → second ≡ p ++ b
    → list_beq first second ≡ false
    → graft p (update (update nothing a v) b w) nothing ≡ update (update nothing second w) first v
graft-two_updates p a b first second v w e f differ =
    let inner =
      fun_ext (graft-update p nothing nothing a v)
      ∙ ap (λ (x : Nibbles → Option Bytes). update x (p ++ a) v) (graft-nothing p) in
    let outer =
      fun_ext (graft-update p (update nothing a v) nothing b w)
      ∙ ap (λ (x : Nibbles → Option Bytes). update x (p ++ b) w) inner in
    outer
    ∙ (ap₂ (λ (x y : Nibbles). update (update nothing x v) y w) (sym e) (sym f)
        ∙ update_comm nothing first second v w differ)

-- The nibble at which an extension is cut.
pub cut_exists :
    (a key : Nibbles)
    → strip_prefix key a ≡ none
    → let l = length (common_prefix a key) in
      (next : ℕ) × (get_elem? key l ≡ some next) × (drop l key ≡ next ∷ drop (l + 1) key)
unfolding common_prefix strip_prefix
cut_exists a [] h = cc
cut_exists [] (y ∷ key) h = (y, refl, refl)
cut_exists (x ∷ a) (y ∷ key) h = elim (Bool-cases (x == y)) [
  | inl e ↦
      let same : (y == x) ≡ true = (==_iff y x).1 (sym ((==_iff x y).0 e)) in
      let (next, found, rest) = cut_exists a key (rw same at h) in
      let l = length (common_prefix a key) in
      let shift : suc l + 1 ≡ suc (l + 1) = omega arith in rw (e, shift) (next, found, rest)
  | inr e ↦ rw e (y, refl, refl)
]

module _ {H : Type 0} (load : H → Option (TrieNodeExt H)) (Known : H → Type 0) where
  Vacant-place_value :
      (a b : Nibbles) (val : Bytes) (children : ChildRefGroup H) (value : Bytes)
      → group_length children ≡ 16
      → AreNibbles load a
      → Vacant load Known b children
      → Differ a b
      → Vacant load Known b (place_value a val (children, value)).0
  unfolding place_value
  Vacant-place_value a [] val children value len d free differ = tt
  Vacant-place_value [] (j ∷ b) val children value len d free differ = free
  Vacant-place_value (i ∷ a) (j ∷ b) val children value len d free differ =
      let at =
        child_at-set_child children i j (owned (seal (leaf a val))) (omega (arith, len, d.0)) in
      elim (Bool-cases (i == j)) [
        | inl hit ↦ absurd (differ ((==_iff i j).0 hit))
        | inr miss ↦ at ∙ rw miss free
      ]

  pub Vacant-empty_group : (a : Nibbles) → Vacant load Known a empty_group
  Vacant-empty_group [] = tt
  Vacant-empty_group (i ∷ a) = child_at-null_group 16 i

  -- What `insert` promises.
  abbrev pub Inserts : TrieNode H → TrieNode H → Nibbles → Bytes → Type 0
  Inserts old new remainder val =
      (find load new ≡ update (find load old) remainder (stored val))
      × IsTrie load Known new
      × (IsBranch load old → IsBranch load new)

  pub find-leaf :
      (key : Nibbles) (value : Bytes)
      → find load (leaf key value) ≡ update nothing key (stored value)
  unfolding look
  find-leaf key value = refl

  pub insert_on_leaf-Inserts :
      (key : Nibbles) (value : Bytes) (remainder : Nibbles) (val : Bytes)
      → IsTrie load Known (leaf key value)
      → AreNibbles load remainder
      → list_beq key remainder ≡ false
      → val ≢ []
      → Inserts (leaf key value) (insert_on_leaf key value remainder val) remainder val
  unfolding insert_on_leaf
  insert_on_leaf-Inserts key value remainder val t d differ full =
      let p = common_prefix remainder key in
      let a = drop (length p) remainder in
      let b = drop (length p) key in
      let (rem_eq, key_eq) = common_prefix-Parts remainder key in
      let d' = subst (AreNibbles load) rem_eq d in
      let k' = subst (AreNibbles load) key_eq t.0 in
      let da = All-append_right (λ (i : ℕ). i < 16) p a d' in
      let db = All-append_right (λ (i : ℕ). i < 16) p b k' in
      let dp = All-append_left (λ (i : ℕ). i < 16) p a d' in
      let first = place_value a val (empty_group, []) in
      let (find_a, len_a, tries_a) =
        find-place_value load Known a val empty_group [] refl (AreTries-null_group load Known 16) da
          (Vacant-empty_group a) full in
      let vacant =
        Vacant-place_value a b val empty_group [] refl da (Vacant-empty_group b)
          (common_prefix-Differ remainder key) in
      let (find_b, len_b, tries_b) =
        find-place_value load Known b value first.0 first.1 len_a tries_a db vacant t.1 in
      let second = place_value b value first in
      let v = stored val in
      let w = stored value in
      let inner : find load (branch second.0 second.1) ≡ update (update nothing a v) b w =
        find_b
        ∙ ap (λ (x : Nibbles → Option Bytes). update x b w)
            (find_a
              ∙ ap (λ (x : Nibbles → Option Bytes). update x a v) (find-empty_group load Known)) in
      let found =
        find-under_prefix load Known p (branch second.0 second.1)
        ∙ (ap (λ (x : Nibbles → Option Bytes). graft p x nothing) inner
            ∙ (graft-two_updates p a b remainder key v w rem_eq key_eq
                  (list_beq_sym key remainder differ)
                ∙ ap (λ (x : Nibbles → Option Bytes). update x remainder v)
                    (sym (find-leaf key value)))) in
      (found, IsTrie-under_prefix load Known p second.0 second.1 dp len_b tries_b, λ b. absurd b)
