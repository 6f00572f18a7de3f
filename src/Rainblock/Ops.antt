-- ===== src/Rainblock/Ops.antt =====
-- asb-authdb/rainblock-trie/src/rain_mpt.rs: MerklePatriciaTree with get, put and del. The database
-- enters by `load`; `none` is a panic.
use extended_hypertrie_authe.Prelude.{
  ℕ, List, [], ◌∷◌, ◌++◌, Option, none, some, Bool, false, list_beq, length, if◌then◌else◌,
}
use extended_hypertrie_authe.Prelude.Options.{◌>>=◌}
use extended_hypertrie_authe.Serde.{Bytes}
use extended_hypertrie_authe.Rainblock.Nibble.{Nibbles, bytes_to_nibble_list}
use extended_hypertrie_authe.Rainblock.Node.{
  leaf, TrieNodeExt, seal, node_of, deleted_digest, value_of, set_value,
}
use extended_hypertrie_authe.Rainblock.Search.{
  Stack, SearchResult, search, settle, reset_pointers, recover_pointers,
}
use extended_hypertrie_authe.Rainblock.Insert.{insert}
use extended_hypertrie_authe.Rainblock.Remove.{remove}

abbrev pub has_value : Option Bytes → Bytes → Bool
has_value none val = false
has_value (some value) val = list_beq value val

-- `MerklePatriciaTree`, less the database; its two lists of weak pointers are marks on the nodes.
pub record MerklePatriciaTree (H : Type 0) : Type 0 where
  pub root : Option (TrieNodeExt H)
  pub del_ops : List H

module _ {H : Type 0} where
  -- `SearchResult::matched`
  unfoldable pub matched_node : SearchResult H → Option (TrieNodeExt H)
  matched_node result = elim result.stack [
    | [] ↦ none
    | (me, idx) ∷ _ ↦ if result.is_match then some me else none
  ]

  -- The value of the node that a search ends in.
  unfoldable pub matched_value : SearchResult H → Option Bytes
  unfolding matched_node value_of
  matched_value result = do me ← matched_node result; value_of (node_of me)

module _ {H : Type 0} (load : H → Option (TrieNodeExt H)) (n : ℕ) where
  -- The result and the tree with the nodes that the search has read.
  unfoldable pub get : MerklePatriciaTree H → Bytes → Option (Option Bytes × MerklePatriciaTree H)
  unfolding search matched_value settle bytes_to_nibble_list
  get t [] = none
  get t (b ∷ key) = elim t.root [
    | none ↦ some (none, t)
    | some root ↦ (do
      result ← search load n root (bytes_to_nibble_list (b ∷ key))
      some (matched_value result, record t { root = settle none result.stack }))
  ]

  -- The end of `put`, on the path that a search has found.
  unfoldable pub put_on_path :
      MerklePatriciaTree H → Stack H → Bool → Nibbles → Bytes → Option (MerklePatriciaTree H)
  unfolding reset_pointers insert recover_pointers set_value deleted_digest
  put_on_path t stack is_match remainder val = do
    (stack', reset) ← reset_pointers stack
    elim stack' [
      | [] ↦ none
      | (last, idx) ∷ below ↦ (do
        (node, inserted) ←
            (if is_match
              then (do node ← set_value (node_of last) val; some (node, []))
              else insert load n (node_of last) remainder val (length below))
        (root, recovered) ← recover_pointers none ((seal node, none) ∷ below)
        some (record {
          root = root;
          del_ops = t.del_ops ++ reset ++ deleted_digest last ++ inserted ++ recovered;
        }))
    ]

  -- The end of `del`, on the path to a node of the key.
  unfoldable pub del_path : MerklePatriciaTree H → Stack H → Option (MerklePatriciaTree H)
  unfolding reset_pointers remove recover_pointers
  del_path t path = do
    (stack, reset) ← reset_pointers path
    (stack', removed) ← remove load stack
    (root, recovered) ← recover_pointers none stack'
    some (record { root = root; del_ops = t.del_ops ++ reset ++ removed ++ recovered })

  unfoldable pub del : MerklePatriciaTree H → Bytes → Option (MerklePatriciaTree H)
  unfolding search settle del_path bytes_to_nibble_list
  del t key = elim t.root [
    | none ↦ some t
    | some root ↦ (do
      result ← search load n root (bytes_to_nibble_list key)
      if result.is_match
          then del_path t result.stack
          else some (record t { root = settle none result.stack }))
  ]

  unfoldable pub put : MerklePatriciaTree H → Bytes → Bytes → Option (MerklePatriciaTree H)
  unfolding search settle put_on_path del matched_value bytes_to_nibble_list
  put t [] val = none
  put t (b ∷ key) [] = del t (b ∷ key)
  put t (b ∷ key) (v ∷ val) = elim t.root [
    | none ↦
        some (record t { root = some (seal (leaf (bytes_to_nibble_list (b ∷ key)) (v ∷ val))) })
    | some root ↦ (do
      result ← search load n root (bytes_to_nibble_list (b ∷ key))
      if has_value (matched_value result) (v ∷ val)
          then some (record t { root = settle none result.stack })
          else put_on_path t result.stack result.is_match result.remainder (v ∷ val))
  ]
