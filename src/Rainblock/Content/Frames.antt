-- ===== src/Rainblock/Content/Frames.antt =====
-- The path from the root to a node, and what the tree around a node holds.
use extended_hypertrie_authe.Prelude.{
  ℕ, ◌<◌, [], ◌∷◌, ◌++◌, Option, none, some, Bool, true, false, ◌==◌, ◌≡◌, ◌≢◌, refl, ap, fun_ext,
  ◌∙◌, arith, if◌then◌else◌, Bool-cases, Option-cases, inl, inr,
}
use extended_hypertrie_authe.Serde.{Bytes}
use extended_hypertrie_authe.Rainblock.Nibble.{Nibbles, strip_prefix}
use extended_hypertrie_authe.Rainblock.Node.{
  TrieNode, leaf, branch, extension, ChildRef, TrieNodeExt, ext, ChildRefGroup, set_child,
  group_length, set_child_of,
}
use extended_hypertrie_authe.Rainblock.Search.{Stack}
use extended_hypertrie_authe.Rainblock.Content.{
  find, find_child, look, IsBranch, AreNibbles, AreTries,
}
use extended_hypertrie_authe.Rainblock.Content.Steps.{
  update, graft, graft-update, find-extension, child_at-set_child,
}
use mathlib.Core.List.{append_assoc}

module _ {H : Type 0} where
  -- The nibbles from a node to its child.
  abbrev pub edge : TrieNode H → ℕ → Nibbles
  edge (leaf key value) idx = []
  edge (branch children value) idx = idx ∷ []
  edge (extension key child) idx = key

  abbrev pub with_child : TrieNode H → ℕ → ChildRef H → TrieNode H
  with_child (leaf key value) idx new = leaf key value
  with_child (branch children value) idx new = branch (set_child children idx new) value
  with_child (extension key child) idx new = extension key new

  abbrev pub path : Stack H → Nibbles
  path [] = []
  path ((ext node cache, none) ∷ stack) = path stack
  path ((ext node cache, some idx) ∷ stack) = path stack ++ edge node idx

  -- A node below an extension is a branch.
  abbrev pub Sits : (TrieNode H → Type 0) → TrieNode H → Stack H → Type 0
  Sits IsB node [] = Unit
  Sits IsB node ((ext (leaf key value) cache, idx) ∷ stack) = ⊥
  Sits IsB node ((ext (branch children value) cache, idx) ∷ stack) = Unit
  Sits IsB node ((ext (extension key child) cache, idx) ∷ stack) = IsB node

pub strip_prefix_nil : (p : ℕ) → strip_prefix (p ∷ []) [] ≡ none
unfolding strip_prefix
strip_prefix_nil p = refl

pub strip_prefix_first :
    (p i : ℕ) (key : Nibbles) (b : Bool)
    → (p == i) ≡ b
    → strip_prefix (p ∷ []) (i ∷ key) ≡ (if b then some key else none)
unfolding strip_prefix
strip_prefix_first p i key b e = rw e refl

module _ {H : Type 0} (load : H → Option (TrieNodeExt H)) (Known : H → Type 0) where
  -- A node of the path, whatever stands for the child on it.
  abbrev pub IsFrame : TrieNode H → ℕ → Type 0
  IsFrame (leaf key value) idx = ⊥
  IsFrame (branch children value) idx =
      (group_length children ≡ 16) × AreTries load Known children × (idx < 16)
  IsFrame (extension key child) idx = (idx ≡ 0) × AreNibbles load key × (key ≢ [])

  abbrev pub AreFrames : Stack H → Type 0
  AreFrames [] = Unit
  AreFrames ((ext node cache, none) ∷ stack) = ⊥
  AreFrames ((ext node cache, some idx) ∷ stack) =
      IsFrame node idx × Sits (IsBranch load) node stack × AreFrames stack

  -- What the whole tree holds if the node at the end of the path holds `x`.
  abbrev pub around : Stack H → (Nibbles → Option Bytes) → Nibbles → Option Bytes
  around [] x = x
  around ((ext node cache, none) ∷ stack) x = around stack x
  around ((ext node cache, some idx) ∷ stack) x =
      around stack (graft (edge node idx) x (find load node))

  pub around-update :
      (stack : Stack H) (x : Nibbles → Option Bytes) (at : Nibbles) (w : Option Bytes)
      → around stack (update x at w) ≡ update (around stack x) (path stack ++ at) w
  around-update [] x at w = refl
  around-update ((ext node cache, none) ∷ stack) x at w = around-update stack x at w
  around-update ((ext node cache, some idx) ∷ stack) x at w =
      let step = fun_ext (graft-update (edge node idx) x (find load node) at w) in
      let rest =
        around-update stack (graft (edge node idx) x (find load node)) (edge node idx ++ at) w in
      rw (step, append_assoc (path stack) (edge node idx) at) rest

  branch_with_child :
      (children : ChildRefGroup H) (value : Bytes) (idx : ℕ) (new : ChildRef H) (key : Nibbles)
      → idx < group_length children
      → find load (branch (set_child children idx new) value) key
        ≡ graft (idx ∷ []) (find_child load new) (find load (branch children value)) key
  unfolding look
  branch_with_child children value idx new [] h = rw (graft, strip_prefix_nil idx) refl
  branch_with_child children value idx new (i ∷ key) h =
      ap (λ (c : ChildRef H). find_child load c key) (child_at-set_child children idx i new h)
      ∙ (elim (Bool-cases (idx == i)) [
        | inl e ↦ rw (e, graft, strip_prefix_first idx i key true e) refl
        | inr e ↦ rw (e, graft, strip_prefix_first idx i key false e) refl
      ])

  extension_with_child :
      (p : ℕ) (rest : Nibbles) (child new : ChildRef H) (key : Nibbles)
      → find load (extension (p ∷ rest) new) key
        ≡ graft (p ∷ rest) (find_child load new) (find load (extension (p ∷ rest) child)) key
  extension_with_child p rest child new key =
      let after = find-extension load p rest new key in
      let before = find-extension load p rest child key in
      elim (Option-cases (strip_prefix (p ∷ rest) key)) [
        | inl e ↦
            let gone : find load (extension (p ∷ rest) child) key ≡ none = before ∙ rw e refl in
            after ∙ rw (e, gone, graft) refl
        | inr (k, e) ↦ after ∙ rw (e, graft) refl
      ]

  -- A new child of a node changes what the node holds below the edge to it.
  pub find-with_child :
      (node : TrieNode H) (idx : ℕ) (new : ChildRef H)
      → IsFrame node idx
      → find load (with_child node idx new)
        ≡ graft (edge node idx) (find_child load new) (find load node)
  find-with_child (branch children value) idx new h =
      fun_ext λ key. branch_with_child children value idx new key (omega (arith, h.0, h.2))
  find-with_child (extension [] child) idx new h = absurd (h.2 refl)
  find-with_child (extension (p ∷ rest) child) idx new h =
      fun_ext (extension_with_child p rest child new)
  find-with_child (leaf k v) idx new h = absurd h

  pub set_child_of-with_child :
      (node : TrieNode H) (idx : ℕ) (new : ChildRef H)
      → IsFrame node idx
      → set_child_of node idx new ≡ some (with_child node idx new)
  unfolding set_child_of
  set_child_of-with_child (branch children value) idx new h = refl
  set_child_of-with_child (extension key child) idx new h = ground (arith, h.0)
  set_child_of-with_child (leaf k v) idx new h = absurd h
