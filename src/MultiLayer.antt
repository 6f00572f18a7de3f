-- ===== src/MultiLayer.antt =====
-- asb-authdb/lvmt-db/src/multi_layer_amt: keys, tree names and the version nodes of the
-- multi-layer tree.
pub mod Key
pub mod TreeName
pub mod Node
pub mod Config
pub mod VersionTree
