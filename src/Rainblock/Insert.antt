-- ===== src/Rainblock/Insert.antt =====
-- asb-authdb/rainblock-trie/src/rain_mpt.rs: insert and the three functions under it. Each returns
-- the changed node and what is added to `del_ops`; `none` is a panic.
use extended_hypertrie_authe.Prelude.{
  ℕ, ◌+◌, List, [], ◌∷◌, Option, none, some, length, get_elem?, drop,
}
use extended_hypertrie_authe.Prelude.Options.{◌>>=◌}
use extended_hypertrie_authe.Serde.{Bytes}
use extended_hypertrie_authe.Rainblock.Nibble.{Nibbles, common_prefix, add_prefix}
use extended_hypertrie_authe.Rainblock.Node.{
  TrieNode, leaf, branch, extension, ChildRef, null, ref, owned, TrieNodeExt, ext, ChildRefGroup,
  seal, node_of, child_at, set_child, empty_group, deleted_digest, key_of, set_key, exile,
}
use extended_hypertrie_authe.Rainblock.Search.{loaded_mut}

module _ {H : Type 0} where
  -- A new value on a new branch: at a child if a nibble is left, and else in the branch.
  unfoldable pub place_value : Nibbles → Bytes → ChildRefGroup H × Bytes → ChildRefGroup H × Bytes
  place_value [] val (children, value) = (children, val)
  place_value (idx ∷ rest) val (children, value) =
      (set_child children idx (owned (seal (leaf rest val))), value)

  -- The new branch, with the common part of the keys before it.
  unfoldable pub under_prefix : Nibbles → TrieNode H → TrieNode H
  under_prefix [] node = node
  under_prefix (i ∷ intersection) node = extension (i ∷ intersection) (owned (seal node))

  -- The old child of a branch under a new branch. A search that ends in the branch leaves only a
  -- child that is null, so `insert_on_branch` does not come here.
  unfoldable pub push_down :
      ℕ → TrieNodeExt H → ℕ → ChildRefGroup H × Bytes → Option (ChildRefGroup H × Bytes)
  unfolding place_value exile
  push_down n (ext (leaf key value) cache) depth new = some (place_value key value new)
  push_down n (ext (extension [] child) cache) depth new = none
  push_down n (ext (extension (first_key ∷ key) child) cache) depth (children, value) =
      let prev = exile n (depth + 2) (owned (seal (extension key child))) in
      some (set_child children first_key prev, value)
  push_down n (ext (branch children value) cache) depth new = none

  unfoldable pub insert_on_branch :
      ℕ → ChildRefGroup H → Nibbles → Bytes → ℕ → Option (ChildRefGroup H × List H)
  unfolding place_value push_down deleted_digest
  insert_on_branch n children [] val depth = none
  insert_on_branch n children (idx ∷ rest) val depth = elim (child_at children idx) [
    | null ↦ some (set_child children idx (owned (seal (leaf rest val))), [])
    | ref h ↦ none
    | owned prev ↦ (do
      (new_children, new_value) ← push_down n prev depth (place_value rest val (empty_group, []))
      let new_branch = branch new_children new_value
      some (set_child children idx (owned (seal new_branch)), deleted_digest prev))
  ]

  unfoldable pub insert_on_leaf : Nibbles → Bytes → Nibbles → Bytes → TrieNode H
  unfolding common_prefix place_value under_prefix
  insert_on_leaf leaf_key leaf_value remainder val =
      let intersection = common_prefix remainder leaf_key in
      let new = place_value (drop (length intersection) remainder) val (empty_group, []) in
      let (children, value) = place_value (drop (length intersection) leaf_key) leaf_value new in
      under_prefix intersection (branch children value)

  module _ (load : H → Option (TrieNodeExt H)) where
    -- The child of a shortened extension: a branch gets an extension for the rest of the key, any
    -- other node has the rest before its own key.
    unfoldable pub keep_rest : ℕ → Nibbles → ChildRef H → ℕ → Option (ChildRef H × List H)
    unfolding loaded_mut add_prefix exile set_key key_of deleted_digest
    keep_rest n [] child depth = some (child, [])
    keep_rest n (i ∷ ext_key_rest) child depth = do
      child_node ← loaded_mut load child
      elim (key_of (node_of child_node)) [
        | none ↦
            let below = exile n (depth + 2) (owned child_node) in
            some (owned (seal (extension (i ∷ ext_key_rest) below)), [])
        | some key ↦ (do
          node ← set_key (node_of child_node) (add_prefix key (i ∷ ext_key_rest))
          some (owned (seal node), deleted_digest child_node))
      ]

    unfoldable pub insert_on_extension :
        ℕ → Nibbles → ChildRef H → Nibbles → Bytes → ℕ → Option (TrieNode H × List H)
    unfolding common_prefix keep_rest exile place_value under_prefix
    insert_on_extension n ext_key child remainder val depth = do
      let intersection = common_prefix remainder ext_key
      ext_key_next ← get_elem? ext_key (length intersection)
      let ext_key_rest = drop (length intersection + 1) ext_key
      (child', digests) ← keep_rest n ext_key_rest child depth
      let below = exile n (depth + 2) child'
      let rest = drop (length intersection) remainder
      let (children, value) = place_value rest val (set_child empty_group ext_key_next below, [])
      some (under_prefix intersection (branch children value), digests)

    -- `insert` at the last node of a search.
    unfoldable pub insert : ℕ → TrieNode H → Nibbles → Bytes → ℕ → Option (TrieNode H × List H)
    unfolding insert_on_branch insert_on_extension insert_on_leaf
    insert n (branch children value) remainder val depth = do
      (children', digests) ← insert_on_branch n children remainder val depth
      some (branch children' value, digests)
    insert n (extension key child) remainder val depth =
        insert_on_extension n key child remainder val depth
    insert n (leaf key value) remainder val depth =
        some (insert_on_leaf key value remainder val, [])
