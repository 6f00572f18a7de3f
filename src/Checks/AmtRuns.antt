-- ===== src/Checks/AmtRuns.antt =====
-- Node indices and bit reversal at concrete values.
use extended_hypertrie_authe.Prelude.{some, true, ◌≡◌, refl, arith}
use extended_hypertrie_authe.Prelude.Bits.{flip}
use extended_hypertrie_authe.Amt.NodeIndex.{NodeIndex, needs_maintain}
use extended_hypertrie_authe.Amt.NodeIndex.Laws.{IsNode}
use extended_hypertrie_authe.Amt.NodeIndex.Shard.{
  ReadBy, needs_maintain-ReadBy, ReadBy-needs_maintain,
}
use extended_hypertrie_authe.Amt.Layout.{flatten_tree_position_inj}

abbrev node : NodeIndex
node = record { depth = 3; index = 5 }

node-IsNode : IsNode 4 node
node-IsNode = record { inside = omega arith; low = omega arith }

abbrev shard : NodeIndex
shard = record { depth = 2; index = 2 }

shard-IsNode : IsNode 4 shard
shard-IsNode = record { inside = omega arith; low = omega arith }

-- The proof of leaf 8 reads its uncle, index 5 at depth 3.
node-ReadBy : ReadBy 4 shard node
unfolding flip
node-ReadBy = record {
  position = 8;
  up = 1;
  position-lt = omega arith;
  up-lt = omega arith;
  in_shard = record { deeper = omega arith; same = refl };
  read = refl;
}

needs_maintain-ReadBy_example : needs_maintain 4 node shard ≡ some true
needs_maintain-ReadBy_example = needs_maintain-ReadBy 4 shard node shard-IsNode node-ReadBy

ReadBy-needs_maintain_example : ReadBy 4 shard node
ReadBy-needs_maintain_example =
    ReadBy-needs_maintain 4 shard node shard-IsNode node-IsNode (omega arith)
      (needs_maintain-ReadBy 4 shard node shard-IsNode node-ReadBy)

flatten_tree_position_inj_example : node ≡ node
flatten_tree_position_inj_example =
    flatten_tree_position_inj node node (record { inside = omega arith; low = omega arith })
      (record { inside = omega arith; low = omega arith }) refl
