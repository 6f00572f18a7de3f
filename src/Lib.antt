-- ===== src/Lib.antt =====
-- The authenticated storages of the benchmarks. LVMT is a multi-layer versioned multipoint trie with
-- the Merkle trees, caches and encodings under it (asb-authdb/lvmt-db); beside it stands a Merkle
-- Patricia trie whose top layers are kept in memory (asb-authdb/rainblock-trie).
--
-- How the program is put together. A value of a key is stored in the leaves of a static Merkle
-- tree of its epoch; the key's version is a 40-bit counter in a node of an authenticated
-- multipoint evaluation tree (AMT), found by the bits of the key; the AMTs form a tree by their
-- names. Every AMT and Merkle tree reads and writes its entries through a write-back cache over
-- a column of a key-value database, and the entries are encoded by two traits. The Merkle Patricia
-- trie keeps nodes with a cached encoding and hash, reads a child from the database when a search
-- comes to it, and writes the new nodes and deletes the old ones in a commit.
--
-- Which file models which part (paths from asb-authdb/lvmt-db/src):
--   Serde, Serde/Uint, Serde/Vectors    serde/mod.rs, serde/basic.rs: MyToBytes, MyFromBytes
--   Serde/BigEndian                     the big-endian integers of the standard library
--   Storage/Backend                     storage/kvdb.rs: DBColumn, over the crate kvdb
--   Storage/Layout, Amt/Layout          storage/layout.rs: FlattenArray, FlattenTree
--   Storage/Access                      storage/access.rs: DBAccess; View and Flush are proofs
--   Merkle, Merkle/Hashing              merkle/mod.rs, serde/h256.rs: StaticMerkleTree, H256
--   Amt/Params, Amt/Params/Cached       crypto/prove_params.rs: AMTParams, without and with caches
--   Amt/Node, Amt/NodeIndex             amt/node.rs: AMTNode, NodeIndex
--   Amt/Bitreverse, Amt/Tree            amt/tree.rs, amt/write_guard.rs: AMTree and its guard
--   Amt/Pairing                         amt/tree.rs: verify, with the keys of AMTParams
--   MultiLayer/Key, TreeName, Node      multi_layer_amt/key.rs, name.rs, node.rs
--   MultiLayer/Config                   multi_layer_amt/mod.rs, node.rs: AMTConfig, derived encodings
--   MultiLayer/VersionTree              multi_layer_amt/tree.rs: VersionTree; Visit and Commit
--   LvmtDb, LvmtDb/Values, Proofs       lvmt_db.rs: LvmtDB, its records, prove and verify
--   SingleAmt                           single_amt/mod.rs: AmtDB, one tree over the values
-- The Merkle Patricia trie beside it (paths from asb-authdb/rainblock-trie/src):
--   Rainblock/Nibble                    nibble.rs, lib.rs: keys as nibbles
--   Rainblock/Node                      trie_node.rs, child_ref.rs, trie_node_ext.rs: the nodes
--   Rainblock/Search                    trie_node.rs: next; rain_mpt.rs: search, the path's pointers
--   Rainblock/Insert, Remove, Ops       rain_mpt.rs: insert, remove; get, put and del
--   Rainblock/Rlp, Rainblock/Load       the encoding of nodes, and how they are read
--   Rainblock/Commits                   trie_node_ext.rs, child_ref.rs: load, truncate, commit
--   Rainblock/Database                  rain_mpt.rs: new, root, commit, flush_all
--   Rainblock/Codec                     the encoding without the caches; its modules are proofs
--   Rainblock/Content                   what a trie holds; its modules are proofs
-- The other modules below these are their lemmas. Prelude has shared notation and lemmas, Checks
-- has concrete instances and runs.
--
-- How state is modelled. A handler takes its object and the database (`World`, with the global
-- counters) and returns them changed; a panic is `none`. A reference that the source returns is
-- the value it points to, and a write through a reference is a function on the value. A hash map
-- is an association list. The type parameters of a tree are a record `AmtConfig`; its height is
-- a number. A node of the Merkle Patricia trie has one owner while it is changed, and is a value; a
-- weak pointer to it is a mark on it, and the path of a search is a list of nodes.
--
-- Parameters: the key-value database (`KeyValueDb`: a read sees the operations written before
-- it), the hash function and the 32-byte hashes (`HashLib`), the group of the curve (`Curve`) and
-- its pairing (`Pairing`), and the items of the crate rlp (`Rlp`).
--
-- Bounds and fuel. Integers of the encodings and keys are cut to their widths; `usize` has 64
-- bits. `find_depth` has as many rounds as there are leaves, and `n <= 2 ^ n`. A Merkle tree has
-- at most 2 ^ 31 leaves where its positions are to fit the 32 bits of a key. `commit_tree` has as
-- many rounds as the forest has layers, since a name of a tree is one longer than its parent's.
-- The loop over the bits of a word has 64 rounds, as each takes away the lowest bit.
-- A search in the trie has one round more than the key has nibbles, and every step but the last
-- takes a nibble. A decoder has more fuel than 17 for every byte, since a node has 17 parts, each
-- shorter than it.
-- All other loops are recursions on their counts.
--
-- Not modelled: I/O errors of the database, the setup of the parameters (a tree takes multiples as
-- the build with `no_cache_pow` does, and the caches give the same), the counters of statistics,
-- the adapters of the storages to the benchmarks with their backends and workloads, and the
-- storages of the repository that are copies of other projects. The commit of the trie
-- visits its lists of weak pointers in the order of the tree.
pub mod Prelude
pub mod Serde
pub mod Storage
pub mod Amt
pub mod Merkle
pub mod MultiLayer
pub mod LvmtDb
pub mod SingleAmt
pub mod Rainblock
pub mod Checks
