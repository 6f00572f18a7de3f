-- ===== src/Rainblock/Load.antt =====
-- Reading nodes: the decoders of trie_node.rs and child_ref.rs, and load and load_children of
-- trie_node_ext.rs in asb-authdb/rainblock-trie/src. `none` is an error or a panic.
use extended_hypertrie_authe.Prelude.{
  ℕ, zero, suc, List, [], ◌∷◌, Option, none, some, true, false, ◌==◌, ltb, length, if◌then◌else◌,
  get_elem?, take,
}
use extended_hypertrie_authe.Prelude.Options.{◌>>=◌}
use extended_hypertrie_authe.Serde.{Bytes}
use extended_hypertrie_authe.Merkle.Hashing.{HashLib}
use extended_hypertrie_authe.Rainblock.Nibble.{from_mpt_key}
use extended_hypertrie_authe.Rainblock.Node.{
  TrieNode, leaf, branch, extension, ChildRef, null, ref, owned, TrieNodeExt, ext, ChildRefGroup,
  nil, cons, light, fresh,
}
use extended_hypertrie_authe.Rainblock.Rlp.{text, items, Rlp}

module _ (lib : HashLib) (rlp : Rlp) where
  -- `val_at` for a byte string.
  unfoldable pub bytes_at : List Bytes → ℕ → Option Bytes
  bytes_at parts i = do
    raw ← get_elem? parts i
    item ← rlp.view raw
    elim item [ text b ↦ some b | items _ ↦ none ]

  -- `TrieNodeExt::from_child_ref`
  unfoldable pub from_child_ref : TrieNode lib.H256 → Bytes → Option (TrieNodeExt lib.H256)
  from_child_ref node rlp_encode =
      if ltb (length rlp_encode) 32
      then some (ext node (record fresh { rlp_encode = some rlp_encode; commited = light }))
      else none

  -- The decoders on fuel: an item is longer than its parts.
  unfoldable mutual
    pub decode_node : ℕ → Bytes → Option (TrieNode lib.H256)
    decode_node zero raw = none
    decode_node (suc fuel) raw = do
      item ← rlp.view raw
      elim item [
        | text _ ↦ none
        | items parts ↦
            if length parts == 2
            then (do
              path ← bytes_at parts 0
              (key, is_leaf) ← from_mpt_key path
              elim is_leaf [
                | true ↦ (do value ← bytes_at parts 1; some (leaf key value))
                | false ↦ (do
                  part ← get_elem? parts 1
                  child ← decode_child fuel part
                  some (extension key child))
              ])
            else if length parts == 17
            then (do
              children ← decode_group fuel (take 16 parts)
              value ← bytes_at parts 16
              some (branch children value))
            else none
      ]

    pub decode_child : ℕ → Bytes → Option (ChildRef lib.H256)
    decode_child zero raw = none
    decode_child (suc fuel) raw = do
      item ← rlp.view raw
      elim item [
        | text [] ↦ some null
        | text (b ∷ bytes) ↦
            if length (b ∷ bytes) == 32 then some (ref (lib.from_slice (b ∷ bytes))) else none
        | items [] ↦ some null
        | items (_ ∷ _) ↦ (do
          node ← decode_node fuel raw
          child ← from_child_ref node raw
          some (owned child))
      ]

    pub decode_group : ℕ → List Bytes → Option (ChildRefGroup lib.H256)
    decode_group zero parts = none
    decode_group (suc fuel) [] = some nil
    decode_group (suc fuel) (part ∷ parts) = do
      c ← decode_child fuel part
      children ← decode_group fuel parts
      some (cons c children)
