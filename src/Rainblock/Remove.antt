-- ===== src/Rainblock/Remove.antt =====
-- asb-authdb/rainblock-trie/src/rain_mpt.rs: remove and the two functions under it. `none` is a
-- panic.
use extended_hypertrie_authe.Prelude.{ℕ, List, [], ◌∷◌, ◌++◌, Option, none, some, if◌then◌else◌}
use extended_hypertrie_authe.Prelude.Options.{◌>>=◌}
use extended_hypertrie_authe.Rainblock.Nibble.{add_prefix}
use extended_hypertrie_authe.Rainblock.Node.{
  TrieNode, leaf, branch, extension, ChildRef, null, owned, TrieNodeExt, ext, ChildRefGroup, seal,
  node_of, child_at, set_child, no_child, only_child, deleted_digest, key_of, set_key,
}
use extended_hypertrie_authe.Rainblock.Search.{loaded_mut, Stack}

module _ {H : Type 0} where
  -- A node that is not a branch joins an extension above it.
  unfoldable pub push_non_branch_to_stack : TrieNode H → Stack H → Option (Stack H)
  unfolding add_prefix key_of set_key
  push_non_branch_to_stack node [] = some ((seal node, none) ∷ [])
  push_non_branch_to_stack node ((ext (extension ext_key child) cache, idx) ∷ stack) = do
    key ← key_of node
    node' ← set_key node (add_prefix key ext_key)
    some ((seal node', none) ∷ stack)
  push_non_branch_to_stack node ((ext (branch children value) cache, idx) ∷ stack) =
      some ((seal node, none) ∷ (ext (branch children value) cache, idx) ∷ stack)
  push_non_branch_to_stack node ((ext (leaf key value) cache, idx) ∷ stack) =
      some ((seal node, none) ∷ (ext (leaf key value) cache, idx) ∷ stack)

  -- The end of `drop_single_child_branch`.
  unfoldable pub connect_node : ℕ → TrieNodeExt H → Option (TrieNode H × List H)
  unfolding add_prefix key_of set_key deleted_digest
  connect_node idx child = elim (key_of (node_of child)) [
    | some key ↦ (do
      node ← set_key (node_of child) (add_prefix key (idx ∷ []))
      some (node, deleted_digest child))
    | none ↦ some (extension (idx ∷ []) (owned child), [])
  ]

  module _ (load : H → Option (TrieNodeExt H)) where
    unfoldable pub drop_single_child_branch : ℕ → ChildRef H → Option (TrieNode H × List H)
    unfolding loaded_mut connect_node
    drop_single_child_branch idx child_ref = do
      child ← loaded_mut load child_ref
      connect_node idx child

    -- The branch that stays, or the node that takes its place.
    unfoldable pub shrink_branch : ChildRefGroup H → Stack H → Option (Stack H × List H)
    unfolding only_child drop_single_child_branch push_non_branch_to_stack
    shrink_branch children stack = elim (only_child children) [
      | some idx ↦ (do
        (connect_node, digests) ← drop_single_child_branch idx (child_at children idx)
        stack' ← push_non_branch_to_stack connect_node stack
        some (stack', digests))
      | none ↦ some ((seal (branch children []), none) ∷ stack, [])
    ]

    -- The parent of a removed leaf.
    unfoldable pub remove_leaf : Stack H → Option (Stack H × List H)
    unfolding shrink_branch no_child push_non_branch_to_stack deleted_digest
    remove_leaf [] = some ([], [])
    remove_leaf ((ext (branch children value) cache, idx) ∷ stack) = do
      i ← idx
      let children' = set_child children i null
      let own = deleted_digest (ext (branch children value) cache)
      elim value [
        | [] ↦ (do (stack', digests) ← shrink_branch children' stack; some (stack', own ++ digests))
        | b ∷ rest ↦
            if no_child children'
            then (do
              stack' ← push_non_branch_to_stack (leaf [] (b ∷ rest)) stack
              some (stack', own))
            else some ((seal (branch children' (b ∷ rest)), none) ∷ stack, own)
      ]
    remove_leaf ((ext (leaf key value) cache, idx) ∷ stack) = none
    remove_leaf ((ext (extension key child) cache, idx) ∷ stack) = none

    unfoldable pub remove : Stack H → Option (Stack H × List H)
    unfolding shrink_branch remove_leaf deleted_digest
    remove [] = none
    remove ((ext (branch children value) cache, idx) ∷ stack) = do
      (stack', digests) ← shrink_branch children stack
      some (stack', deleted_digest (ext (branch children value) cache) ++ digests)
    remove ((ext (leaf key value) cache, idx) ∷ stack) = do
      (stack', digests) ← remove_leaf stack
      some (stack', deleted_digest (ext (leaf key value) cache) ++ digests)
    remove ((ext (extension key child) cache, idx) ∷ stack) = none
