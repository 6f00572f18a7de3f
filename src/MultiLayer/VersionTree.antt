-- ===== src/MultiLayer/VersionTree.antt =====
-- multi_layer_amt/tree.rs: the forest of trees, one layer of trees for each length of a name.
-- `none` is a panic.
pub mod Visit
pub mod Commit
pub mod Slots
use Prim.Native.Nat.{min}
use extended_hypertrie_authe.Prelude.{
  ℕ, zero, suc, ◌+◌, ◌-◌, ◌*◌, ◌%◌, ◌^◌, List, [], ◌∷◌, ◌++◌, Option, none, some, Bool, true, false,
  not, ltb, leb, ◌==◌, length, take, set, get_elem?, get_or, replicate, if◌then◌else◌, list_eq, Eq,
}
use extended_hypertrie_authe.Prelude.Maps.{Assoc, lookup, insert}
use extended_hypertrie_authe.Prelude.Options.{◌>>=◌}
use extended_hypertrie_authe.Serde.{Bytes, Serde, to_bytes_local, from_bytes_local}
use extended_hypertrie_authe.Storage.Backend.{
  DbOp, insert as insert_op, KeyValueDb, DbColumn, column_get, column_write_buffered,
}
use extended_hypertrie_authe.Storage.Layout.{flatten_array}
use extended_hypertrie_authe.Storage.Access.{World, get as get_entry}
use extended_hypertrie_authe.Amt.NodeIndex.{NodeIndex, leaf, root as root_index, needs_maintain}
use extended_hypertrie_authe.Amt.Params.{Curve, AmtParams}
use extended_hypertrie_authe.Amt.Tree.{
  AmTree, new_tree, set_commitment, subtree_root_mut, get_data, write_versions, drop_guard, update,
  flush,
}
use extended_hypertrie_authe.MultiLayer.Key.{Key, tree_at_level, index_at_level}
use extended_hypertrie_authe.MultiLayer.TreeName.{TreeName, child}
use extended_hypertrie_authe.MultiLayer.Node.{Node, KeyVersions, fr_int_pow_2, max_version_number}
use extended_hypertrie_authe.MultiLayer.Config.{forest_config}

pub record VerInfo : Type 0 where
  pub version : ℕ
  pub level : ℕ
  pub slot_index : ℕ

abbrev pub root_key : Bytes
root_key = 0 ∷ 0 ∷ []

-- `HashSet::insert`
unfoldable pub insert_mark : ℕ → List ℕ → List ℕ
insert_mark index [] = index ∷ []
insert_mark index (i ∷ marks) = if i == index then i ∷ marks else i ∷ insert_mark index marks

-- `sort_unstable`
unfoldable pub insert_sorted : ℕ → List ℕ → List ℕ
insert_sorted i [] = i ∷ []
insert_sorted i (j ∷ js) = if leb i j then i ∷ j ∷ js else j ∷ insert_sorted i js

unfoldable pub sort_unstable : List ℕ → List ℕ
unfolding insert_sorted
sort_unstable [] = []
sort_unstable (i ∷ is) = insert_sorted i (sort_unstable is)

-- The write to `key_versions` of a node: one version more, and one version higher.
unfoldable pub push_version : Node → Node
push_version node = record node {
  key_versions = record { versions = node.key_versions.versions ++ 0 ∷ [] };
}

unfoldable pub bump_version : ℕ → Node → Option Node
bump_version slot node = do
  version ← get_elem? node.key_versions.versions slot
  some (record node {
    key_versions = record {
      versions = set node.key_versions.versions slot ((version + 1) % 2 ^ 64);
    };
  })

-- The write of `commit_tree` to the node above a tree that changed.
unfoldable pub bump_tree_version : ℕ → ℕ → Node → Node
bump_tree_version epoch position node = record node {
  tree_version = (node.tree_version + 1) % 2 ^ 64;
  tree_position = record { epoch = epoch; position = position };
}

module _ (c : Curve) (depths : ℕ) where
  abbrev pub Tree : Type 0
  Tree = AmTree c (forest_config c depths)

  pub record TreeWithInfo : Type 0 where
    pub tree : Tree
    pub mark_in_parent : Bool
    pub children_marks : List ℕ

  abbrev pub TreesLayer : Type 0
  TreesLayer = Assoc (List ℕ) TreeWithInfo

  -- `struct VersionTree`; the column and the shard's node are those of the producer.
  pub record VersionTree : Type 0 where
    pub column : DbColumn
    pub forest : List TreesLayer
    pub shard_node : Option NodeIndex

  -- `SubTreeRootRecorder`: the names, versions and commitments in the order of the pushes.
  abbrev pub Recorder : Type 0
  Recorder = List (TreeName × (ℕ × c.G))

  -- `TreeProducer::new_tree`
  unfoldable pub produce_tree : DbColumn → Option NodeIndex → TreeName → Option Tree
  produce_tree column none name = some (new_tree c (forest_config c depths) name column none)
  produce_tree column (some shard_node) name = elim name.path [
    | [] ↦ some (new_tree c (forest_config c depths) name column (some shard_node))
    | first ∷ _ ↦ (do
      root_tree_leaf ← leaf depths first
      maintained ← needs_maintain depths root_tree_leaf shard_node
      top ← root_index depths
      some
          (new_tree c (forest_config c depths) name column (if maintained then some top else none)))
  ]

  -- `entry(..).or_insert_with(..)` in a layer, less the insertion.
  unfoldable pub entry_or_new :
      DbColumn → Option NodeIndex → TreesLayer → TreeName → Option TreeWithInfo
  unfolding produce_tree
  entry_or_new column shard_node layer name = elim (lookup name.path layer) [
    | some info ↦ some info
    | none ↦ (do
      tree ← produce_tree column shard_node name
      some (record { tree = tree; mark_in_parent = false; children_marks = [] }))
  ]

  -- `resize(level + 1, Default::default())` of a forest that is shorter.
  unfoldable pub resize_forest : ℕ → List TreesLayer → List TreesLayer
  resize_forest level forest = forest ++ replicate (level + 1 - length forest) []

  -- A tree with its information put back at its place.
  unfoldable pub put_tree : List TreesLayer → List ℕ → TreeWithInfo → List TreesLayer
  put_tree forest path info =
      set forest (length path) (insert path info (get_or forest (length path) []))
