-- ===== src/Rainblock.antt =====
-- asb-authdb/rainblock-trie: the Merkle Patricia tree with a top layer that stays in memory.
pub mod Nibble
pub mod Node
pub mod Search
pub mod Insert
pub mod Remove
pub mod Ops
pub mod Rlp
pub mod Load
pub mod Commits
pub mod Database
pub mod Content
pub mod Codec
