-- ===== src/Amt.antt =====
-- asb-authdb/lvmt-db/src/amt: the authenticated multipoint evaluation tree.
pub mod NodeIndex
pub mod Bitreverse
pub mod Layout
pub mod Params
pub mod Node
pub mod Tree
pub mod Pairing
