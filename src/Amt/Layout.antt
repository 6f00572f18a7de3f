-- ===== src/Amt/Layout.antt =====
-- `FlattenTree` of storage/layout.rs: the nodes of a tree level by level.
use extended_hypertrie_authe.Prelude.{
  ℕ, suc, ◌+◌, ◌^◌, ◌≤◌, ◌<◌, ◌≡◌, ap, sym, arith, shl, pow-suc_two, pow_mono, ltb, ltb→lt,
  Bool-cases, inl, inr,
}
use extended_hypertrie_authe.Amt.NodeIndex.{NodeIndex}
use extended_hypertrie_authe.Amt.NodeIndex.Laws.{IsNode}
use extended_hypertrie_authe.Storage.Layout.{Layout}

-- `1 << depth` is a `usize`, and the trees have far fewer levels than its bits.
unfoldable pub flatten_tree_position : NodeIndex → ℕ
flatten_tree_position tree_index = shl 1 tree_index.depth + tree_index.index

-- The position of a node of a tree of at most 31 levels fits a `u32`.
pub flatten_tree_position-lt :
    (node : NodeIndex) → IsNode 31 node → flatten_tree_position node < 2 ^ 32
unfolding flatten_tree_position
flatten_tree_position-lt node v =
    omega
      (arith, v.inside, pow-suc_two node.depth, pow_mono (suc node.depth) 32 (omega (arith, v.low)))

depth-le :
    (a b : NodeIndex)
    → IsNode 31 a
    → IsNode 31 b
    → flatten_tree_position a ≡ flatten_tree_position b
    → a.depth ≤ b.depth
unfolding flatten_tree_position
depth-le a b v u e = elim (Bool-cases (ltb b.depth a.depth)) [
  | inl over ↦ absurd (
      omega (
        arith,
        u.inside,
        pow-suc_two b.depth,
        pow_mono (suc b.depth) a.depth (ltb→lt b.depth a.depth over),
      ))
  | inr fits ↦ ground arith
]

-- Nodes of a tree of at most 31 levels that have the same position are the same node.
pub flatten_tree_position_inj :
    (a b : NodeIndex)
    → IsNode 31 a
    → IsNode 31 b
    → flatten_tree_position a ≡ flatten_tree_position b
    → a ≡ b
unfolding flatten_tree_position
flatten_tree_position_inj a b v u e =
    let same : a.depth ≡ b.depth = omega (arith, depth-le a b v u e, depth-le b a u v (sym e)) in
    let index : a.index ≡ b.index = omega (arith, ap (λ (t : ℕ). 2 ^ t) same) in
    λ i. record { depth = same i; index = index i }

abbrev pub flatten_tree : Layout NodeIndex
flatten_tree = record {
  position = flatten_tree_position;
  Fits = IsNode 31;
  position-lt = flatten_tree_position-lt;
  position_inj = flatten_tree_position_inj;
}
