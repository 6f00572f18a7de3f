-- ===== src/Checks/ForestRuns.antt =====
-- A forest of trees over the numbers: the first two versions of a key.
use extended_hypertrie_authe.Prelude.{◌+◌, [], ◌∷◌, Option, none, some, ◌≡◌, refl, true, false}
use extended_hypertrie_authe.Prelude.Maps.{lookup, insert}
use extended_hypertrie_authe.Prelude.Tests.{list_beq}
use extended_hypertrie_authe.Serde.BigEndian.{from_be_bytes}
use extended_hypertrie_authe.Serde.Uint.{from_le_bytes, to_le_bytes}
use extended_hypertrie_authe.Storage.Backend.{column_get}
use extended_hypertrie_authe.Storage.Access.{
  get, get_mut, ensure_cached, load, decode, compute_key, to_be_bytes,
}
use extended_hypertrie_authe.Amt.Params.{AmtParams, get_idents_pow}
use extended_hypertrie_authe.Amt.Tree.{get_data, set_data, write_versions, drop_guard, update}
use extended_hypertrie_authe.MultiLayer.Key.{
  Key, mid, entry_at, index_at_level, indices, tree_at_level,
}
use extended_hypertrie_authe.MultiLayer.Node.{
  as_fr_int, copy_versions, copy_from_slice, low_bytes, fr_int_pow_2,
}
use extended_hypertrie_authe.MultiLayer.VersionTree.{
  VerInfo, TreeWithInfo, VersionTree, push_version, entry_or_new, resize_forest, put_tree,
}
use extended_hypertrie_authe.MultiLayer.VersionTree.Visit.{
  get_tree_mut, mark_ancestors, with_tree, take_slot, write_node_versions, allocate_from,
  allocate_vacant_slot, in_proof_shard, inc_key_ver,
}
use extended_hypertrie_authe.MultiLayer.VersionTree.Slots.{
  IsVerInfo, last_version, inc_key_ver-IsVerInfo,
}
use extended_hypertrie_authe.Checks.Toy.{log_db, empty_world, column_two}
use extended_hypertrie_authe.Checks.TreeRuns.{plain}

abbrev pub key : Key
key = record { bytes = 1 ∷ 2 ∷ [] }

abbrev pub few : AmtParams plain
few = record { commitments = 2 ∷ 3 ∷ 5 ∷ []; quotients = [] }

abbrev root_tree : TreeWithInfo plain 8
root_tree = record {
  tree = record {
    name = record { path = [] };
    data_entries = record { prefix = 1 ∷ 0 ∷ []; column = column_two; cache = [] };
    subtree_roots = record { prefix = 3 ∷ 0 ∷ []; column = column_two; cache = [] };
    inner_nodes = record { prefix = 2 ∷ 0 ∷ []; column = column_two; cache = [] };
    commitment = some 0;
    dirty = false;
    shard_root = none;
  };
  mark_in_parent = true;
  children_marks = [];
}

abbrev pub start : VersionTree plain 8
start = record { column = column_two; forest = (([], root_tree) ∷ []) ∷ []; shard_node = none }

abbrev pub ran : Option (VerInfo × VersionTree plain 8)
ran = inc_key_ver plain 8 log_db few 1 start empty_world key none

abbrev pub after : VersionTree plain 8
after = elim ran [ none ↦ start | some p ↦ p.1 ]

abbrev pub first : VerInfo
first = record { version = 1; level = 0; slot_index = 0 }

pub ran-eq : ran ≡ some (first, after)
unfolding inc_key_ver in_proof_shard allocate_vacant_slot allocate_from take_slot
    write_node_versions with_tree get_tree_mut mark_ancestors put_tree resize_forest entry_or_new
    push_version fr_int_pow_2 as_fr_int copy_versions copy_from_slice low_bytes tree_at_level
    indices index_at_level mid entry_at update drop_guard write_versions set_data get_data
    get_idents_pow compute_key decode load ensure_cached get_mut get to_be_bytes column_get list_beq
    to_le_bytes from_le_bytes from_be_bytes insert lookup
ran-eq = refl

-- The key has no version before.
inc_key_ver-IsVerInfo_example : IsVerInfo first × (1 ≡ last_version plain 8 log_db few 1 none + 1)
inc_key_ver-IsVerInfo_example =
    inc_key_ver-IsVerInfo plain 8 log_db few 1 start after empty_world key none first (λ v h. cc)
      ran-eq
