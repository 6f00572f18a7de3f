-- ===== src/Rainblock/Content/Removed.antt =====
-- remove of asb-authdb/rainblock-trie/src/rain_mpt.rs takes one key away.
use extended_hypertrie_authe.Prelude.{
  ℕ, List, [], ◌∷◌, ◌++◌, Option, none, some, true, ◌≡◌, inl, inr, refl, sym, ap, ap₂, fun_ext,
  subst, ◌∙◌, list_beq, Bool-cases,
}
use extended_hypertrie_authe.Serde.{Bytes}
use extended_hypertrie_authe.Rainblock.Nibble.{Nibbles}
use extended_hypertrie_authe.Rainblock.Node.{
  TrieNode, leaf, branch, extension, null, TrieNodeExt, ext, ChildRefGroup, NodeCache, seal,
  set_child, key_of, no_child, deleted_digest,
}
use extended_hypertrie_authe.Rainblock.Search.{Stack}
use extended_hypertrie_authe.Rainblock.Remove.{remove_leaf, remove}
use extended_hypertrie_authe.Rainblock.Content.{stored, find, IsBranch, IsTrie, IsClosed}
use extended_hypertrie_authe.Rainblock.Content.Steps.{update, group_length-set_child}
use extended_hypertrie_authe.Rainblock.Content.Frames.{Sits, AreFrames, around, find-with_child}
use extended_hypertrie_authe.Rainblock.Content.Rebuild.{AreTries-set_child}
use extended_hypertrie_authe.Rainblock.Content.Found.{EndsAt}
use extended_hypertrie_authe.Rainblock.Content.Placed.{nothing, new_value}
use extended_hypertrie_authe.Rainblock.Content.Parted.{find-leaf}
use extended_hypertrie_authe.Rainblock.Content.Joined.{Rebuilds, push_non_branch_to_stack-Rebuilds}
use extended_hypertrie_authe.Rainblock.Content.Single.{find-no_child, shrink_branch-Rebuilds}

update-nothing : (k : Nibbles) (w : Option Bytes) → update (update nothing k w) k none ≡ nothing
update-nothing k w = fun_ext λ key. elim (Bool-cases (list_beq k key)) [
  | inl e ↦ rw (update, e) refl
  | inr e ↦ rw (update, e) refl
]

module _ {H : Type 0} (load : H → Option (TrieNodeExt H)) (Known : H → Type 0) where
  abbrev pub Removes : Option (Stack H × List H) → (Nibbles → Option Bytes) → Type 0
  Removes result w =
      (new : Stack H) × (digests : List H) × (result ≡ some (new, digests))
      × Rebuilds load Known new w

  branch-Sits :
      (children new : ChildRefGroup H) (value value' : Bytes) (stack : Stack H)
      → Sits (IsBranch load) (branch children value) stack
      → Sits (IsBranch load) (branch new value') stack
  branch-Sits children new value value' [] s = tt
  branch-Sits children new value value' ((ext (leaf a b) c, i) ∷ stack) s = absurd s
  branch-Sits children new value value' ((ext (branch a b) c, i) ∷ stack) s = tt
  branch-Sits children new value value' ((ext (extension a b) c, i) ∷ stack) s = tt

  key_of-leaf : (k : Nibbles) (v : Bytes) → key_of {H = H} (leaf k v) ≡ some k
  unfolding key_of
  key_of-leaf k v = refl

  -- The parent of a leaf that is taken away.
  remove_leaf-Removes :
      (children : ChildRefGroup H) (value : Bytes) (c : NodeCache H) (i : ℕ) (stack : Stack H)
      → IsClosed load Known
      → AreFrames load Known ((ext (branch children value) c, some i) ∷ stack)
      → Removes
          (remove_leaf load ((ext (branch children value) c, some i) ∷ stack))
          (around load Known stack (find load (branch (set_child children i null) value)))
  unfolding remove_leaf
  remove_leaf-Removes children [] c i stack closed f =
      let len = group_length-set_child children i null ∙ f.0.0 in
      let tries = AreTries-set_child load Known children i null f.0.1 tt in
      let (new, digests, e, rebuilds) =
        shrink_branch-Rebuilds load Known (set_child children i null) stack closed len tries f.2
          (branch-Sits children (set_child children i null) [] [] stack f.1) in
      (new, deleted_digest (ext (branch children []) c) ++ digests, rw e refl, rebuilds)
  remove_leaf-Removes children (b ∷ value) c i stack closed f =
      let len = group_length-set_child children i null ∙ f.0.0 in
      let tries = AreTries-set_child load Known children i null f.0.1 tt in
      let children' = set_child children i null in
      elim (Bool-cases (no_child children')) [
        | inl e ↦
            let (new, pushed, rebuilds) =
              push_non_branch_to_stack-Rebuilds load Known (leaf [] (b ∷ value)) [] stack
                (tt, λ eq. cc) (key_of-leaf [] (b ∷ value)) f.2 in
            let same : find load (leaf [] (b ∷ value)) ≡ find load (branch children' (b ∷ value)) =
              fun_ext λ key. sym (find-no_child load Known children' (b ∷ value) key e) in
            (
              new,
              deleted_digest (ext (branch children (b ∷ value)) c),
              rw e (rw pushed refl),
              subst (Rebuilds load Known new) (ap (around load Known stack) same) rebuilds,
            )
        | inr e ↦ (
          (seal (branch children' (b ∷ value)), none) ∷ stack,
          deleted_digest (ext (branch children (b ∷ value)) c),
          rw e refl,
          (
            f.2,
            branch-Sits children children' (b ∷ value) (b ∷ value) stack f.1,
            (len, tries),
            refl,
          ),
        )
      ]

  leaf_parent :
      (k : Nibbles) (v : Bytes) (stack : Stack H)
      → IsClosed load Known
      → AreFrames load Known stack
      → Sits (IsBranch load) (leaf k v) stack
      → Removes (remove_leaf load stack) (around load Known stack nothing)
  unfolding remove_leaf
  leaf_parent k v [] closed f s = ([], [], refl, refl)
  leaf_parent k v ((ext (leaf a b) c, none) ∷ stack) closed f s = absurd f
  leaf_parent k v ((ext (leaf a b) c, some i) ∷ stack) closed f s = absurd f.0
  leaf_parent k v ((ext (extension a b) c, i) ∷ stack) closed f s = absurd s
  leaf_parent k v ((ext (branch children value) c, none) ∷ stack) closed f s = absurd f
  leaf_parent k v ((ext (branch children value) c, some i) ∷ stack) closed f s =
      let (new, digests, e, rebuilds) = remove_leaf-Removes children value c i stack closed f in
      let same = find-with_child load Known (branch children value) i null f.0 in
      (
        new,
        digests,
        e,
        subst (Rebuilds load Known new) (ap (around load Known stack) same) rebuilds,
      )

  -- `remove`, on the path of a search that ended with a match, returns a path from which a tree is
  -- put together that holds nothing at the key and at every other key what it held.
  pub remove-Removes :
      (last : TrieNode H) (c : NodeCache H) (stack : Stack H) (remainder place : Nibbles)
      → IsClosed load Known
      → IsTrie load Known last
      → AreFrames load Known stack
      → Sits (IsBranch load) last stack
      → EndsAt true last remainder place
      → Removes
          (remove load ((ext last c, none) ∷ stack))
          (around load Known stack (update (find load last) place none))
  unfolding remove
  remove-Removes (extension k x) c stack remainder place closed t f s ends = absurd ends
  remove-Removes (branch children value) c stack remainder place closed t f s ends =
      let (new, digests, e, rebuilds) =
        shrink_branch-Rebuilds load Known children stack closed t.0 t.1 f
          (branch-Sits children children value [] stack s) in
      let same : find load (branch children [])
          ≡ update (find load (branch children value)) place none =
        fun_ext (new_value load Known children value [])
        ∙ ap (λ (k : Nibbles). update (find load (branch children value)) k none) (sym ends) in
      (
        new,
        deleted_digest (ext (branch children value) c) ++ digests,
        rw e refl,
        subst (Rebuilds load Known new) (ap (around load Known stack) same) rebuilds,
      )
  remove-Removes (leaf k v) c stack remainder place closed t f s ends =
      let gone : update (find load (leaf k v)) place none ≡ nothing =
        ap₂ (λ (x : Nibbles → Option Bytes) (at : Nibbles). update x at none)
          (find-leaf load Known k v) ends
        ∙ update-nothing k (stored v) in
      let (new, digests, e, rebuilds) = leaf_parent k v stack closed f s in
      (
        new,
        deleted_digest (ext (leaf k v) c) ++ digests,
        rw e refl,
        subst (Rebuilds load Known new) (ap (around load Known stack) (sym gone)) rebuilds,
      )
