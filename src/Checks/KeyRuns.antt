-- ===== src/Checks/KeyRuns.antt =====
-- Keys and nodes at concrete values.
use extended_hypertrie_authe.Prelude.{
  ℕ, ◌<◌, ◌+◌, ◌-◌, ◌*◌, ◌^◌, ◌%◌, [], ◌∷◌, some, ◌≡◌, refl, arith,
}
use extended_hypertrie_authe.Prelude.Options.{◌>>=◌}
use extended_hypertrie_authe.MultiLayer.VersionTree.{bump_version}
use extended_hypertrie_authe.MultiLayer.Key.{Key, mid, entry_at, index_at_level}
use extended_hypertrie_authe.MultiLayer.Key.Index.{AreBytes, window, index_at_level-window}
use extended_hypertrie_authe.MultiLayer.Key.Path.{tree_at_level_inj}
use extended_hypertrie_authe.MultiLayer.Key.Unaligned.{mid-lt_unaligned}
use extended_hypertrie_authe.MultiLayer.Node.{
  Node, as_fr_int, versions_from_fr_int, fr_int_pow_2, copy_versions, copy_from_slice, low_bytes,
}
use extended_hypertrie_authe.MultiLayer.Node.Packing.{
  as_fr_int-bump_version, versions_from_fr_int-as_fr_int,
}
use extended_hypertrie_authe.Serde.BigEndian.{be_value, from_be_bytes}
use extended_hypertrie_authe.Serde.Uint.{to_le_bytes, from_le_bytes}

abbrev key : Key
key = record { bytes = 1 ∷ 2 ∷ 3 ∷ 255 ∷ 5 ∷ [] }

key-AreBytes : AreBytes key.bytes
key-AreBytes = (omega arith, (omega arith, (omega arith, (omega arith, (omega arith, tt)))))

second_index : index_at_level 16 key 1 ≡ some 1023
unfolding index_at_level mid entry_at from_be_bytes from_le_bytes
second_index = refl

index_at_level-window_example : index_at_level 16 key 1 ≡ some (be_value (window key.bytes 2 2))
index_at_level-window_example =
    index_at_level-window 2 key 1 key-AreBytes (omega arith) (omega arith) (omega arith)

tree_at_level_inj_example : key ≡ key
tree_at_level_inj_example =
    tree_at_level_inj 2 key key 3 (omega arith) (omega arith) key-AreBytes key-AreBytes refl
      (omega arith) (omega arith) refl

-- The second level of 12 bits is the 8 bits of the second byte.
second_index_of_12 : mid key 12 12 ≡ some 2
unfolding mid entry_at from_be_bytes from_le_bytes
second_index_of_12 = refl

mid-lt_unaligned_example : 2 < 2 ^ (12 - 12 % 8)
mid-lt_unaligned_example =
    mid-lt_unaligned key 12 12 2 key-AreBytes (omega arith) (omega arith) (omega arith)
      second_index_of_12

abbrev node : Node
node = record {
  key_versions = record { versions = 2 ∷ 3 ∷ [] };
  tree_version = 1;
  tree_position = record { epoch = 0; position = 0 };
}

abbrev node_value : ℕ
node_value = 1 + 2 * 2 ^ 40 + 3 * 2 ^ 80

node-as_fr_int : as_fr_int node ≡ some node_value
unfolding as_fr_int copy_versions copy_from_slice low_bytes to_le_bytes from_le_bytes
node-as_fr_int = refl

as_fr_int-bump_version_example :
    (bump_version 1 node >>= as_fr_int) ≡ some (node_value + fr_int_pow_2 80)
as_fr_int-bump_version_example =
    as_fr_int-bump_version node 1 node_value (omega arith) (omega arith) (omega arith)
      node-as_fr_int

versions_from_fr_int-as_fr_int_example : versions_from_fr_int node_value 2 ≡ some 3
versions_from_fr_int-as_fr_int_example =
    versions_from_fr_int-as_fr_int node 2 node_value (omega arith) (omega arith)
      (omega arith, (omega arith, tt)) (omega arith) node-as_fr_int
