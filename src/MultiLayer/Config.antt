-- ===== src/MultiLayer/Config.antt =====
-- The readers and writers of Node that are derived (multi_layer_amt/node.rs), and the trees of
-- the forest as an instance of AMTree (multi_layer_amt/mod.rs).
use extended_hypertrie_authe.Prelude.{ℕ, ◌^◌, ◌<◌, [], ◌++◌, Option, some, ◌≡◌, length, All}
use extended_hypertrie_authe.Prelude.Options.{◌>>=◌}
use extended_hypertrie_authe.Serde.{Bytes, SerdeType, Serde}
use extended_hypertrie_authe.Serde.Uint.{read_uint, write_uint, read_uint-write_uint, u64_serde}
use extended_hypertrie_authe.Serde.Vectors.{read_vec, write_vec, read_vec-write_vec}
use extended_hypertrie_authe.Amt.Params.{Curve}
use extended_hypertrie_authe.Amt.Tree.{AmtConfig}
use extended_hypertrie_authe.MultiLayer.TreeName.{
  TreeName, read_name, write_name, read_name-write_name,
}
use extended_hypertrie_authe.MultiLayer.Node.{Node, as_fr_int}
use mathlib.Core.List.{append_assoc}

-- The fields in order.
unfoldable pub write_version_node : Node → SerdeType → Bytes
write_version_node node ty =
    write_vec u64_serde node.key_versions.versions ty
    ++ (write_uint 8 node.tree_version ty
        ++ (write_uint 8 node.tree_position.epoch ty
            ++ write_uint 8 node.tree_position.position ty))

unfoldable pub read_version_node : Bytes → SerdeType → Option (Node × Bytes)
read_version_node reader ty = do
  (versions, r) ← read_vec u64_serde reader ty
  (tree_version, r1) ← read_uint 8 r ty
  (epoch, r2) ← read_uint 8 r1 ty
  (position, rest) ← read_uint 8 r2 ty
  some (
    record {
      key_versions = record { versions = versions };
      tree_version = tree_version;
      tree_position = record { epoch = epoch; position = position };
    },
    rest,
  )

-- The fields are machine words.
abbrev pub NodeFits : Node → Type 0
NodeFits node =
    (length node.key_versions.versions < 256 ^ 8)
    × (All (λ v. v < 256 ^ 8) node.key_versions.versions
        × ((node.tree_version < 256 ^ 8)
            × ((node.tree_position.epoch < 256 ^ 8) × (node.tree_position.position < 256 ^ 8))))

-- A node whose fields are machine words is read back, in front of anything.
pub read_version_node-write_version_node :
    (node : Node) (ty : SerdeType) (rest : Bytes)
    → NodeFits node
    → read_version_node (write_version_node node ty ++ rest) ty ≡ some (node, rest)
unfolding read_version_node write_version_node
read_version_node-write_version_node node ty rest (short, (fits, (tv, (ev, pv)))) =
    let versions = write_vec u64_serde node.key_versions.versions ty in
    let version = write_uint 8 node.tree_version ty in
    let epoch = write_uint 8 node.tree_position.epoch ty in
    let position = write_uint 8 node.tree_position.position ty in
    rw (append_assoc versions (version ++ (epoch ++ position)) rest) (
      rw (append_assoc version (epoch ++ position) rest) (
        rw (append_assoc epoch position rest) (
          rw
            (read_vec-write_vec u64_serde node.key_versions.versions ty
              (version ++ (epoch ++ (position ++ rest))) short fits)
            (rw (read_uint-write_uint 8 node.tree_version ty (epoch ++ (position ++ rest)) tv) (
              rw (read_uint-write_uint 8 node.tree_position.epoch ty (position ++ rest) ev)
                (rw (read_uint-write_uint 8 node.tree_position.position ty rest pv)))))))

abbrev pub version_node_serde : Serde Node
version_node_serde = record {
  write = write_version_node;
  read = read_version_node;
  Fits = NodeFits;
  read-write = read_version_node-write_version_node;
}

abbrev pub tree_name_serde : Serde TreeName
tree_name_serde = record {
  write = write_name;
  read = read_name;
  Fits = λ name. (length name.path < 256) × All (λ index. index < 2 ^ 32) name.path;
  read-write = λ name ty rest fits. read_name-write_name name ty rest fits.0 fits.1;
}

-- `AMTConfig`, with the height that the features of the build choose.
abbrev pub forest_config : (c : Curve) → ℕ → AmtConfig c
forest_config c depths = record {
  Name = TreeName;
  name_serde = tree_name_serde;
  Data = Node;
  data_serde = version_node_serde;
  default_data = record {
    key_versions = record { versions = [] };
    tree_version = 0;
    tree_position = record { epoch = 0; position = 0 };
  };
  as_fr_int = as_fr_int;
  depths = depths;
}
