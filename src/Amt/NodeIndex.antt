-- ===== src/Amt/NodeIndex.antt =====
-- amt/node.rs: the index of a node by its depth and its position among the nodes of that depth.
-- `none` is a failed assertion.
pub mod Laws
pub mod Shard
use Prim.Native.Nat.{bit_xor}
use extended_hypertrie_authe.Prelude.{
  ℕ, ◌+◌, ◌-◌, ◌^◌, ◌≤◌, ◌<◌, Option, none, some, Bool, true, false, ◌&&◌, ◌==◌, ◌≡◌, ◌↔◌, ltb, leb,
  shl, shr, if◌then◌else◌, Eq, arith, ==_iff,
}
use extended_hypertrie_authe.Prelude.Options.{◌>>=◌}

pub record NodeIndex : Type 0 where
  pub depth : ℕ
  pub index : ℕ

unfoldable pub node_beq : NodeIndex → NodeIndex → Bool
node_beq a b = a.depth == b.depth && a.index == b.index

pub node_beq_iff : (a b : NodeIndex) → (node_beq a b ≡ true) ↔ (a ≡ b)
unfolding node_beq
node_beq_iff a b = ground arith

instance abbrev pub node_eq : Eq NodeIndex
node_eq = record { beq = node_beq; beq_iff = node_beq_iff }

-- The type parameter `N: TypeUInt` is the number `height`.
module _ (height : ℕ) where
  -- `NodeIndex::new`
  unfoldable pub new_index : ℕ → ℕ → Option NodeIndex
  new_index depth index =
      if ltb index (shl 1 depth)
      then (if leb depth height then some (record { depth = depth; index = index }) else none)
      else none

  unfoldable pub leaf : ℕ → Option NodeIndex
  unfolding new_index
  leaf index = new_index height index

  unfoldable pub root : Option NodeIndex
  unfolding new_index
  root = new_index 0 0

  unfoldable pub to_sibling : NodeIndex → Option NodeIndex
  unfolding new_index
  to_sibling node = new_index node.depth (bit_xor node.index 1)

  unfoldable pub to_ancestor : NodeIndex → ℕ → Option NodeIndex
  unfolding new_index
  to_ancestor node up =
      if leb up node.depth then new_index (node.depth - up) (shr node.index up) else none

  -- `needs_maintain` of a node that is not the root.
  unfoldable pub needs_maintain_inner : NodeIndex → NodeIndex → Option Bool
  needs_maintain_inner node shard_root =
      if ltb shard_root.depth node.depth
      then (let height_diff = node.depth - shard_root.depth in
          some (shr node.index height_diff == shard_root.index))
      else (do
        sib ← to_sibling node
        let height_diff = shard_root.depth - sib.depth
        some (sib.index == shr shard_root.index height_diff))

  unfoldable pub needs_maintain : NodeIndex → NodeIndex → Option Bool
  needs_maintain node shard_root = do
    top ← root
    if node_beq node top then some true else needs_maintain_inner node shard_root
