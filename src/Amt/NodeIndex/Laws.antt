-- ===== src/Amt/NodeIndex/Laws.antt =====
-- Siblings, ancestors, and what a shard has to maintain.
use extended_hypertrie_authe.Prelude.{
  ℕ, zero, suc, ◌+◌, ◌-◌, ◌^◌, ◌≤◌, ◌<◌, some, true, ◌≡◌, ap, ap₂, shr-lt, leb, shr, shr-shr, arith,
  ◌∙◌,
}
use extended_hypertrie_authe.Prelude.Bits.{flip, flip-flip, flip-lt, bit_xor-one}
use extended_hypertrie_authe.Prelude.Options.{◌>>=◌}
use extended_hypertrie_authe.Amt.NodeIndex.{NodeIndex, new_index, to_sibling, to_ancestor}

-- A node of a tree of the given height.
pub record IsNode (height : ℕ) (node : NodeIndex) : Type 0 where
  pub inside : node.index < 2 ^ node.depth
  pub low : node.depth ≤ height

-- The node lies in the subtree of `top`.
pub record Below (node top : NodeIndex) : Type 0 where
  pub deeper : top.depth ≤ node.depth
  pub same : shr node.index (node.depth - top.depth) ≡ top.index

abbrev pub sibling_of : NodeIndex → NodeIndex
sibling_of node = record { depth = node.depth; index = flip node.index }

abbrev pub ancestor_of : NodeIndex → ℕ → NodeIndex
ancestor_of node up = record { depth = node.depth - up; index = shr node.index up }

pub flip-inside : (d x : ℕ) → 1 ≤ d → x < 2 ^ d → flip x < 2 ^ d
flip-inside zero x p h = absurd (omega arith)
flip-inside (suc d) x p h = flip-lt d x h

module _ (height : ℕ) where
  pub new_index-eq :
      (depth index : ℕ)
      → index < 2 ^ depth
      → depth ≤ height
      → new_index height depth index ≡ some (record { depth = depth; index = index })
  unfolding new_index
  new_index-eq depth index p q = ground arith

  -- `new` accepts exactly the nodes of the tree.
  pub new_index-IsNode :
      (depth index : ℕ) (node : NodeIndex)
      → new_index height depth index ≡ some node
      → IsNode height node × (node.depth ≡ depth) × (node.index ≡ index)
  unfolding new_index
  new_index-IsNode depth index node h = ground arith

  pub sibling_of-IsNode :
      (node : NodeIndex) → IsNode height node → 1 ≤ node.depth → IsNode height (sibling_of node)
  sibling_of-IsNode node v p = record {
    inside = flip-inside node.depth node.index p v.inside;
    low = v.low;
  }

  pub ancestor_of-IsNode :
      (node : NodeIndex) (up : ℕ)
      → IsNode height node
      → up ≤ node.depth
      → IsNode height (ancestor_of node up)
  ancestor_of-IsNode node up v p = record {
    inside = shr-lt node.depth node.index up p v.inside;
    low = omega (arith, v.low);
  }

  pub to_sibling-eq :
      (node : NodeIndex)
      → IsNode height node
      → 1 ≤ node.depth
      → to_sibling height node ≡ some (sibling_of node)
  unfolding to_sibling
  to_sibling-eq node v p = rw (bit_xor-one node.index) (
      new_index-eq node.depth (flip node.index) (flip-inside node.depth node.index p v.inside)
        v.low)

  pub to_ancestor-eq :
      (node : NodeIndex) (up : ℕ)
      → IsNode height node
      → up ≤ node.depth
      → to_ancestor height node up ≡ some (ancestor_of node up)
  unfolding to_ancestor
  to_ancestor-eq node up v p =
      let taken : leb up node.depth ≡ true = ground arith in
      rw taken (
        new_index-eq (node.depth - up) (shr node.index up)
          (shr-lt node.depth node.index up p v.inside) (omega (arith, v.low)))

  -- The sibling of the sibling of a node of the tree below the root is the node.
  pub to_sibling-to_sibling :
      (node : NodeIndex)
      → IsNode height node
      → 1 ≤ node.depth
      → (do sib ← to_sibling height node; to_sibling height sib) ≡ some node
  to_sibling-to_sibling node v p = rw (to_sibling-eq node v p) (
      to_sibling-eq (sibling_of node) (sibling_of-IsNode node v p) p
      ∙ ap (λ i. some (record { depth = node.depth; index = i })) (flip-flip node.index))

  -- Of a node of the tree, the ancestor `b` levels above the ancestor `a` levels up is the one
  -- `a + b` levels up, where the root is that far.
  pub to_ancestor-to_ancestor :
      (node : NodeIndex) (a b : ℕ)
      → IsNode height node
      → a + b ≤ node.depth
      → (do top ← to_ancestor height node a; to_ancestor height top b)
        ≡ to_ancestor height node (a + b)
  to_ancestor-to_ancestor node a b v p =
      rw (to_ancestor-eq node a v (omega arith), to_ancestor-eq node (a + b) v p)
        (to_ancestor-eq (ancestor_of node a) b (ancestor_of-IsNode node a v (omega arith))
            (omega arith)
          ∙ ap₂ (λ d i. some (record { depth = d; index = i })) (omega arith)
              (shr-shr node.index a b))
