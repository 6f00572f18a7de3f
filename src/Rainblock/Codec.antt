-- ===== src/Rainblock/Codec.antt =====
-- The encoding of a trie of asb-authdb/rainblock-trie, without its caches, and what the caches of a
-- node are to hold.
pub mod Keys
pub mod Bare
pub mod Fitting
pub mod Cached
pub mod Truncated
pub mod Committed
pub mod Drained
pub mod Saved
pub mod Sound
pub mod Shown
pub mod Reads
pub mod Decoded
use extended_hypertrie_authe.Prelude.{
  ℕ, ◌<◌, ◌≤◌, List, [], ◌∷◌, ◌++◌, Option, none, some, Bool, true, false, ltb, ◌≡◌, length,
  if◌then◌else◌,
}
use extended_hypertrie_authe.Serde.{Bytes}
use extended_hypertrie_authe.Merkle.Hashing.{HashLib}
use extended_hypertrie_authe.Rainblock.Nibble.{Nibbles, to_mpt_key}
use extended_hypertrie_authe.Rainblock.Node.{
  TrieNode, leaf, branch, extension, ChildRef, null, ref, owned, TrieNodeExt, ext, ChildRefGroup,
  nil, cons, NodeCache, Commit, committed, pending, light, working,
}
use extended_hypertrie_authe.Rainblock.Rlp.{Rlp}

module _ (lib : HashLib) (rlp : Rlp) where
  abbrev pub mpt_path : Nibbles → Bool → Bytes
  mpt_path key is_leaf = elim (to_mpt_key key is_leaf) [ none ↦ [] | some path ↦ path ]

  -- A node in the encoding of its parent: itself if it is short, and else its digest.
  abbrev pub inlined : Bytes → Bytes
  inlined bytes =
      if ltb (length bytes) 32 then bytes else rlp.append (lib.as_bytes (lib.keccak bytes))

  abbrev mutual
    pub encode : TrieNode lib.H256 → Bytes
    encode (leaf key value) =
        rlp.append_list (rlp.append (mpt_path key true) ∷ rlp.append value ∷ [])
    encode (branch children value) =
        rlp.append_list (encode_group children ++ (rlp.append value ∷ []))
    encode (extension key child) =
        rlp.append_list (rlp.append (mpt_path key false) ∷ encode_child child ∷ [])

    pub encode_child : ChildRef lib.H256 → Bytes
    encode_child null = rlp.append []
    encode_child (ref digest) = rlp.append (lib.as_bytes digest)
    encode_child (owned node) = encode_ext node

    pub encode_ext : TrieNodeExt lib.H256 → Bytes
    encode_ext (ext node cache) = inlined (encode node)

    pub encode_group : ChildRefGroup lib.H256 → List Bytes
    encode_group nil = []
    encode_group (cons c children) = encode_child c ∷ encode_group children

  -- The mark fits the encoding; the root is committed whatever its length.
  abbrev pub TagFits : Bool → Commit → Bytes → Type 0
  TagFits is_root working bytes = ⊥
  TagFits is_root light bytes = length bytes < 32
  TagFits is_root pending bytes = 32 ≤ length bytes
  TagFits true committed bytes = Unit
  TagFits false committed bytes = 32 ≤ length bytes

  abbrev pub HashFits : Option lib.H256 → Bytes → Type 0
  HashFits none bytes = Unit
  HashFits (some digest) bytes = digest ≡ lib.keccak bytes

  -- The caches of a node with the encoding `bytes`.
  abbrev pub Fits : Bool → Option Bytes → NodeCache lib.H256 → Bytes → Type 0
  Fits is_root none cache bytes = (cache.commited ≡ working) × (cache.hash ≡ none)
  Fits is_root (some rlp_encode) cache bytes =
      (rlp_encode ≡ bytes) × TagFits is_root cache.commited bytes × HashFits cache.hash bytes

  -- Every cache of a tree is right.
  abbrev mutual
    pub IsCoherent : TrieNode lib.H256 → Type 0
    IsCoherent (leaf key value) = Unit
    IsCoherent (branch children value) = AreCoherent children
    IsCoherent (extension key child) = IsCoherentRef child

    pub IsCoherentRef : ChildRef lib.H256 → Type 0
    IsCoherentRef null = Unit
    IsCoherentRef (ref digest) = Unit
    IsCoherentRef (owned node) = IsCoherentExt node

    pub IsCoherentExt : TrieNodeExt lib.H256 → Type 0
    IsCoherentExt (ext node cache) =
        IsCoherent node × Fits false cache.rlp_encode cache (encode node)

    pub AreCoherent : ChildRefGroup lib.H256 → Type 0
    AreCoherent nil = Unit
    AreCoherent (cons c children) = IsCoherentRef c × AreCoherent children

  abbrev pub IsCoherentRoot : TrieNodeExt lib.H256 → Type 0
  IsCoherentRoot (ext node cache) = IsCoherent node × Fits true cache.rlp_encode cache (encode node)
