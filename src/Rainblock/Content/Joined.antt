-- ===== src/Rainblock/Content/Joined.antt =====
-- Nodes that take over a prefix in asb-authdb/rainblock-trie/src/rain_mpt.rs:
-- push_non_branch_to_stack.
use extended_hypertrie_authe.Prelude.{
  ℕ, ◌<◌, [], ◌∷◌, ◌++◌, Option, none, some, ◌≡◌, ◌≢◌, refl, sym, ap, fun_ext, ◌∙◌, All-append,
}
use extended_hypertrie_authe.Serde.{Bytes}
use extended_hypertrie_authe.Rainblock.Nibble.{Nibbles, add_prefix}
use extended_hypertrie_authe.Rainblock.Node.{
  TrieNode, leaf, branch, extension, ChildRef, TrieNodeExt, ext, seal, key_of, set_key,
}
use extended_hypertrie_authe.Rainblock.Search.{Stack}
use extended_hypertrie_authe.Rainblock.Remove.{push_non_branch_to_stack}
use extended_hypertrie_authe.Rainblock.Content.{
  stored, look, find, find_child, IsBranch, AreNibbles, IsTrie,
}
use extended_hypertrie_authe.Rainblock.Content.Steps.{update, graft, graft-update}
use extended_hypertrie_authe.Rainblock.Content.Frames.{Sits, AreFrames, around}
use extended_hypertrie_authe.Rainblock.Content.Rebuild.{graft-graft}
use extended_hypertrie_authe.Rainblock.Content.Placed.{nothing, graft-nothing, graft-append}
use extended_hypertrie_authe.Rainblock.Content.Cut.{find-whole_extension}

append-ne-nil : (e k : Nibbles) → k ≢ [] → e ++ k ≢ []
append-ne-nil [] k h = h
append-ne-nil (x ∷ e) k h = λ eq. cc

module _ {H : Type 0} (load : H → Option (TrieNodeExt H)) (Known : H → Type 0) where
  -- The node with a prefix before its key.
  abbrev pub Prefixed : Nibbles → TrieNode H → Nibbles → Type 0
  Prefixed e node key =
      (new : TrieNode H) × (set_key node (add_prefix key e) ≡ some new)
      × (find load new ≡ graft e (find load node) nothing)
      × IsTrie load Known new
      × ((k : Nibbles) × (key_of new ≡ some k))

  pub key_of-Prefixed :
      (e : Nibbles) (node : TrieNode H) (key : Nibbles)
      → IsTrie load Known node
      → AreNibbles load e
      → key_of node ≡ some key
      → Prefixed e node key
  unfolding key_of set_key add_prefix look
  key_of-Prefixed e (branch children value) key t d h = cc
  key_of-Prefixed e (leaf k value) key t d h =
      let same : key ≡ k = cc in
      (
        leaf (e ++ k) value,
        rw same refl,
        sym (
            fun_ext (graft-update e nothing nothing k (stored value))
            ∙ ap (λ (x : Nibbles → Option Bytes). update x (e ++ k) (stored value))
                (graft-nothing e)),
        (All-append (λ (i : ℕ). i < 16) e k d t.0, t.1),
        (e ++ k, refl),
      )
  key_of-Prefixed e (extension k child) key t d h =
      let same : key ≡ k = cc in
      let full = append-ne-nil e k t.1 in
      (
        extension (e ++ k) child,
        rw same refl,
        find-whole_extension load Known (e ++ k) child full
            ∙ (graft-append e k (find_child load child)
                ∙ ap (λ (x : Nibbles → Option Bytes). graft e x nothing)
                    (sym (find-whole_extension load Known k child t.1))),
        (All-append (λ (i : ℕ). i < 16) e k d t.0, full, t.2, t.3),
        (e ++ k, refl),
      )

  -- A path from which a tree with the content can be put together.
  abbrev pub Rebuilds : Stack H → (Nibbles → Option Bytes) → Type 0
  Rebuilds [] w = w ≡ nothing
  Rebuilds ((ext node cache, none) ∷ stack) w =
      AreFrames load Known stack
      × Sits (IsBranch load) node stack
      × IsTrie load Known node
      × (around load Known stack (find load node) ≡ w)
  Rebuilds ((ext node cache, some idx) ∷ stack) w = ⊥

  node-Sits :
      (k : Nibbles) (child : ChildRef H) (node : TrieNode H) (stack : Stack H)
      → Sits (IsBranch load) (extension k child) stack
      → Sits (IsBranch load) node stack
  node-Sits k child node [] s = tt
  node-Sits k child node ((ext (leaf a b) c, idx) ∷ stack) s = absurd s
  node-Sits k child node ((ext (branch a b) c, idx) ∷ stack) s = tt
  node-Sits k child node ((ext (extension a b) c, idx) ∷ stack) s = absurd s

  pub push_non_branch_to_stack-Rebuilds :
      (node : TrieNode H) (key : Nibbles) (stack : Stack H)
      → IsTrie load Known node
      → key_of node ≡ some key
      → AreFrames load Known stack
      → (new : Stack H) × (push_non_branch_to_stack node stack ≡ some new)
        × Rebuilds new (around load Known stack (find load node))
  unfolding push_non_branch_to_stack
  push_non_branch_to_stack-Rebuilds node key [] t h f =
      ((seal node, none) ∷ [], refl, (tt, tt, t, refl))
  push_non_branch_to_stack-Rebuilds node key ((ext (leaf a b) c, none) ∷ stack) t h f = absurd f
  push_non_branch_to_stack-Rebuilds node key ((ext (leaf a b) c, some i) ∷ stack) t h f = absurd f.0
  push_non_branch_to_stack-Rebuilds node key ((ext (branch a b) c, none) ∷ stack) t h f = absurd f
  push_non_branch_to_stack-Rebuilds node key ((ext (branch a b) c, some i) ∷ stack) t h f =
      ((seal node, none) ∷ (ext (branch a b) c, some i) ∷ stack, refl, (f, tt, t, refl))
  push_non_branch_to_stack-Rebuilds node key ((ext (extension a b) c, none) ∷ stack) t h f =
      absurd f
  push_non_branch_to_stack-Rebuilds node key ((ext (extension a b) c, some i) ∷ stack) t h f =
      let (new, e, found, trie, k) = key_of-Prefixed a node key t f.0.1 h in
      let outside : graft a (find load node) nothing
          ≡ graft a (find load node) (find load (extension a b)) =
        sym (
          ap (λ (y : Nibbles → Option Bytes). graft a (find load node) y)
            (find-whole_extension load Known a b f.0.2)
          ∙ graft-graft a (find load node) (find_child load b) nothing) in
      (
        (seal new, none) ∷ stack,
        rw h (rw e refl),
        (f.2, node-Sits a b new stack f.1, trie, ap (around load Known stack) (found ∙ outside)),
      )
