-- ===== src/Rainblock/Rlp.antt =====
-- What asb-authdb/rainblock-trie/src uses of the crate rlp, and the encoding of nodes
-- (trie_node.rs, child_ref.rs) with its caches (trie_node_ext.rs).
use extended_hypertrie_authe.Prelude.{
  ◌<◌, List, [], ◌∷◌, ◌++◌, Option, none, some, true, false, ltb, ◌≡◌, ◌≢◌, length, All,
  if◌then◌else◌,
}
use extended_hypertrie_authe.Prelude.Options.{◌>>=◌}
use extended_hypertrie_authe.Serde.{Bytes}
use extended_hypertrie_authe.Merkle.Hashing.{HashLib}
use extended_hypertrie_authe.Rainblock.Nibble.{to_mpt_key}
use extended_hypertrie_authe.Rainblock.Node.{
  TrieNode, leaf, branch, extension, ChildRef, null, ref, owned, TrieNodeExt, ext, ChildRefGroup,
  nil, cons, pending, light,
}

-- An item of the encoding: a string of bytes, or a list of encoded items.
pub data RlpItem : Type 0 where
  text : Bytes → RlpItem
  items : List Bytes → RlpItem

-- The encoder and the view of one item. An item is read back, and is longer than its parts.
pub record Rlp : Type 0 where
  pub append : Bytes → Bytes
  pub append_list : List Bytes → Bytes
  pub view : Bytes → Option RlpItem
  pub view-append : (b : Bytes) → view (append b) ≡ some (text b)
  pub view-append_list :
      (xs : List Bytes)
      → All (λ (x : Bytes). view x ≢ none) xs
      → view (append_list xs) ≡ some (items xs)
  pub length-append_list :
      (xs : List Bytes) → All (λ (x : Bytes). length x < length (append_list xs)) xs

module _ (lib : HashLib) (rlp : Rlp) where
  -- `TrieNodeExt::hash` of a node whose encoding is at hand.
  unfoldable pub hash_with : Bytes → TrieNodeExt lib.H256 → lib.H256 × TrieNodeExt lib.H256
  hash_with rlp_encode (ext node cache) = elim cache.hash [
    | some digest ↦ (digest, ext node cache)
    | none ↦
        (lib.keccak rlp_encode, ext node (record cache { hash = some (lib.keccak rlp_encode) }))
  ]

  -- A child in the encoding of its parent.
  abbrev pub child_item : Bytes → TrieNodeExt lib.H256 → Bytes × ChildRef lib.H256
  child_item rlp_encode node =
      let (digest, hashed) = hash_with rlp_encode node in
      if ltb (length rlp_encode) 32
      then (rlp_encode, owned node)
      else (rlp.append (lib.as_bytes digest), owned hashed)

  -- Each returns the bytes and the node with what it has cached.
  unfoldable mutual
    pub get_rlp_encode : TrieNodeExt lib.H256 → Option (Bytes × TrieNodeExt lib.H256)
    get_rlp_encode (ext node cache) = elim cache.rlp_encode [
      | some rlp_encode ↦ some (rlp_encode, ext node cache)
      | none ↦ (do
        (rlp_encode, node') ← rlp_bytes node
        let commited = if ltb (length rlp_encode) 32 then light else pending
        some (
          rlp_encode,
          ext node' (record cache { rlp_encode = some rlp_encode; commited = commited }),
        ))
    ]

    pub rlp_bytes : TrieNode lib.H256 → Option (Bytes × TrieNode lib.H256)
    rlp_bytes (leaf key value) = do
      path ← to_mpt_key key true
      some (rlp.append_list (rlp.append path ∷ rlp.append value ∷ []), leaf key value)
    rlp_bytes (branch children value) = do
      (parts, children') ← rlp_group children
      some (rlp.append_list (parts ++ (rlp.append value ∷ [])), branch children' value)
    rlp_bytes (extension key child) = do
      path ← to_mpt_key key false
      (part, child') ← rlp_child child
      some (rlp.append_list (rlp.append path ∷ part ∷ []), extension key child')

    pub rlp_child : ChildRef lib.H256 → Option (Bytes × ChildRef lib.H256)
    rlp_child null = some (rlp.append [], null)
    rlp_child (ref digest) = some (rlp.append (lib.as_bytes digest), ref digest)
    rlp_child (owned node) = do
      (rlp_encode, node') ← get_rlp_encode node
      some (child_item rlp_encode node')

    pub rlp_group : ChildRefGroup lib.H256 → Option (List Bytes × ChildRefGroup lib.H256)
    rlp_group nil = some ([], nil)
    rlp_group (cons c children) = do
      (part, c') ← rlp_child c
      (parts, children') ← rlp_group children
      some (part ∷ parts, cons c' children')

  unfoldable pub hash : TrieNodeExt lib.H256 → Option (lib.H256 × TrieNodeExt lib.H256)
  unfolding hash_with get_rlp_encode
  hash node = do (rlp_encode, node') ← get_rlp_encode node; some (hash_with rlp_encode node')
