-- ===== src/Rainblock/Content/Rebuild.antt =====
-- The tree that is put together along a path: settle, reset_pointers, recover_pointers.
use extended_hypertrie_authe.Prelude.{
  ℕ, zero, suc, List, [], ◌∷◌, ◌++◌, Option, none, some, ◌≡◌, refl, sym, ap, ap₂, fun_ext, ◌∙◌,
  Option-cases, inl, inr,
}
use extended_hypertrie_authe.Serde.{Bytes}
use extended_hypertrie_authe.Rainblock.Nibble.{Nibbles, strip_prefix}
use extended_hypertrie_authe.Rainblock.Node.{
  TrieNode, leaf, branch, extension, ChildRef, null, owned, TrieNodeExt, ext, ChildRefGroup,
  NodeCache, fresh, nil, cons, child_at, set_child, seal, deleted_digest,
}
use extended_hypertrie_authe.Rainblock.Search.{Stack, settle, reset_pointers, recover_pointers}
use extended_hypertrie_authe.Rainblock.Content.{
  find, find_child, IsBranch, IsTrie, IsTrieRef, AreTries,
}
use extended_hypertrie_authe.Rainblock.Content.Steps.{graft, group_length-set_child}
use extended_hypertrie_authe.Rainblock.Content.Frames.{
  edge, with_child, path, Sits, IsFrame, AreFrames, around, find-with_child,
  set_child_of-with_child,
}

pub graft-none :
    (prefix : Nibbles) (x y : Nibbles → Option Bytes) (key : Nibbles)
    → strip_prefix prefix key ≡ none
    → graft prefix x y key ≡ y key
graft-none prefix x y key e = rw (graft, e) refl

pub graft-graft :
    (prefix : Nibbles) (x z y : Nibbles → Option Bytes)
    → graft prefix x (graft prefix z y) ≡ graft prefix x y
graft-graft prefix x z y = fun_ext λ key. elim (Option-cases (strip_prefix prefix key)) [
  | inl e ↦
      graft-none prefix x (graft prefix z y) key e
      ∙ (graft-none prefix z y key e ∙ sym (graft-none prefix x y key e))
  | inr (rest, e) ↦ rw (graft, e) refl
]

module _ {H : Type 0} (load : H → Option (TrieNodeExt H)) (Known : H → Type 0) where
  pub AreTries-set_child :
      (children : ChildRefGroup H) (i : ℕ) (new : ChildRef H)
      → AreTries load Known children
      → IsTrieRef load Known new
      → AreTries load Known (set_child children i new)
  AreTries-set_child nil i new h k = tt
  AreTries-set_child (cons c children) zero new h k = (k, h.1)
  AreTries-set_child (cons c children) (suc i) new h k =
      (h.0, AreTries-set_child children i new h.1 k)

  pub AreTries-child_at :
      (children : ChildRefGroup H) (i : ℕ)
      → AreTries load Known children
      → IsTrieRef load Known (child_at children i)
  AreTries-child_at nil i h = tt
  AreTries-child_at (cons c children) zero h = h.0
  AreTries-child_at (cons c children) (suc i) h = AreTries-child_at children i h.1

  with_child-IsTrie :
      (node y : TrieNode H) (idx : ℕ) (cache cache' : NodeCache H) (stack : Stack H)
      → IsFrame load Known node idx
      → Sits (IsBranch load) y ((ext node cache, some idx) ∷ stack)
      → IsTrie load Known y
      → IsTrie load Known (with_child node idx (owned (ext y cache')))
  with_child-IsTrie (leaf k v) y idx cache cache' stack h s t = absurd h
  with_child-IsTrie (branch children value) y idx cache cache' stack h s t =
      (group_length-set_child children idx _ ∙ h.0, AreTries-set_child children idx _ h.1 t)
  with_child-IsTrie (extension key child) y idx cache cache' stack h s t =
      (h.1, h.2, t, (y, refl, s))

  pub Sits-with_child :
      (node : TrieNode H) (idx : ℕ) (new : ChildRef H) (stack : Stack H)
      → Sits (IsBranch load) node stack
      → Sits (IsBranch load) (with_child node idx new) stack
  Sits-with_child node idx new [] s = tt
  Sits-with_child node idx new ((ext (leaf k v) cache, i) ∷ stack) s = absurd s
  Sits-with_child node idx new ((ext (branch children value) cache, i) ∷ stack) s = tt
  Sits-with_child (branch c v) idx new ((ext (extension key child) cache, i) ∷ stack) s = tt
  Sits-with_child (leaf k v) idx new ((ext (extension key child) cache, i) ∷ stack) s = absurd s
  Sits-with_child (extension k c) idx new ((ext (extension key child) cache, i) ∷ stack) s =
      absurd s

  -- The root is the tree of the path around the node.
  abbrev pub IsRoot : TrieNode H → TrieNode H → Stack H → Type 0
  IsRoot root y stack =
      (find load root ≡ around load Known stack (find load y)) × IsTrie load Known root

  pub settle-IsRoot :
      (y : TrieNode H) (cache : NodeCache H) (stack : Stack H)
      → AreFrames load Known stack
      → Sits (IsBranch load) y stack
      → IsTrie load Known y
      → (root : TrieNode H) × (c : NodeCache H) × (settle (some (ext y cache)) stack
          ≡ some (ext root c))
        × IsRoot root y stack
  unfolding settle
  settle-IsRoot y cache [] f s t = (y, cache, refl, (refl, t))
  settle-IsRoot y cache ((ext node c, none) ∷ stack) f s t = absurd f
  settle-IsRoot y cache ((ext node c, some idx) ∷ stack) f s t =
      let node' = with_child node idx (owned (ext y cache)) in
      let (root, c', e, (found, trie)) =
        settle-IsRoot node' c stack f.2 (Sits-with_child node idx _ stack f.1)
          (with_child-IsTrie node y idx c cache stack f.0 s t) in
      let step = find-with_child load Known node idx (owned (ext y cache)) f.0 in
      (
        root,
        c',
        rw (set_child_of-with_child load Known node idx (owned (ext y cache)) f.0) e,
        (found ∙ ap (around load Known stack) step, trie),
      )

  pub recover_pointers-IsRoot :
      (y : TrieNode H) (cache : NodeCache H) (stack : Stack H)
      → AreFrames load Known stack
      → Sits (IsBranch load) y stack
      → IsTrie load Known y
      → (root : TrieNode H) × (c : NodeCache H) × (digests : List H) × (recover_pointers
            (some (ext y cache))
            stack
          ≡ some (some (ext root c), digests))
        × IsRoot root y stack
  unfolding recover_pointers
  recover_pointers-IsRoot y cache [] f s t = (y, cache, [], refl, (refl, t))
  recover_pointers-IsRoot y cache ((ext node c, none) ∷ stack) f s t = absurd f
  recover_pointers-IsRoot y cache ((ext node c, some idx) ∷ stack) f s t =
      let node' = with_child node idx (owned (ext y cache)) in
      let (root, c', digests, e, (found, trie)) =
        recover_pointers-IsRoot node' fresh stack f.2 (Sits-with_child node idx _ stack f.1)
          (with_child-IsTrie node y idx c cache stack f.0 s t) in
      let step = find-with_child load Known node idx (owned (ext y cache)) f.0 in
      (
        root,
        c',
        deleted_digest (ext node c) ++ digests,
        rw (set_child_of-with_child load Known node idx (owned (ext y cache)) f.0) (rw e refl),
        (found ∙ ap (around load Known stack) step, trie),
      )

  -- The path with its pointers cut stands for the same tree.
  abbrev pub IsReset : Stack H → Stack H → Type 0
  IsReset stack cut =
      AreFrames load Known cut
      × ((x : Nibbles → Option Bytes) → around load Known cut x ≡ around load Known stack x)
      × (path cut ≡ path stack)
      × ((y : TrieNode H) → Sits (IsBranch load) y stack → Sits (IsBranch load) y cut)

  child_null-IsFrame :
      (node : TrieNode H) (idx : ℕ)
      → IsFrame load Known node idx
      → IsFrame load Known (with_child node idx null) idx
        × (edge (with_child node idx null) idx ≡ edge node idx)
  child_null-IsFrame (leaf k v) idx h = absurd h
  child_null-IsFrame (branch children value) idx h = (
    (
      group_length-set_child children idx null ∙ h.0,
      AreTries-set_child children idx null h.1 tt,
      h.2,
    ),
    refl,
  )
  child_null-IsFrame (extension key child) idx h = (h, refl)

  reset_Sits :
      (node y : TrieNode H) (idx : ℕ) (new : ChildRef H) (c c' : NodeCache H) (stack : Stack H)
      (cut : Stack H)
      → Sits (IsBranch load) y ((ext node c, some idx) ∷ stack)
      → Sits (IsBranch load) y ((ext (with_child node idx new) c', some idx) ∷ cut)
  reset_Sits (leaf k v) y idx new c c' stack cut s = s
  reset_Sits (branch children value) y idx new c c' stack cut s = s
  reset_Sits (extension key child) y idx new c c' stack cut s = s

  pub reset_pointers-IsReset :
      (stack : Stack H)
      → AreFrames load Known stack
      → (cut : Stack H) × (digests : List H) × (reset_pointers stack ≡ some (cut, digests))
        × IsReset stack cut
  unfolding reset_pointers
  reset_pointers-IsReset [] f = ([], [], refl, (tt, (λ x. refl), refl, λ y s. s))
  reset_pointers-IsReset ((ext node c, none) ∷ stack) f = absurd f
  reset_pointers-IsReset ((ext node c, some idx) ∷ stack) f =
      let (cut, digests, e, (frames, same, paths, sits)) = reset_pointers-IsReset stack f.2 in
      let node' = with_child node idx null in
      let (frame, edges) = child_null-IsFrame node idx f.0 in
      let step = find-with_child load Known node idx null f.0 in
      let merged = λ (x : Nibbles → Option Bytes).
        ap₂ (λ (p : Nibbles) (y : Nibbles → Option Bytes). graft p x y) edges step
        ∙ graft-graft (edge node idx) x (find_child load null) (find load node) in
      (
        (seal node', some idx) ∷ cut,
        digests ++ deleted_digest (ext node c),
        rw e (rw (set_child_of-with_child load Known node idx null f.0)),
        (
          (frame, Sits-with_child node idx null cut (sits node f.1), frames),
          (λ x. same _ ∙ ap (around load Known stack) (merged x)),
          ap₂ (λ (p q : Nibbles). p ++ q) paths edges,
          λ y s. reset_Sits node y idx null c fresh stack cut s,
        ),
      )
