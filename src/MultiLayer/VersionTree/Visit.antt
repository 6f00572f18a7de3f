-- ===== src/MultiLayer/VersionTree/Visit.antt =====
-- multi_layer_amt/tree.rs: `new`, the visit of a tree, and the version of a key.
use extended_hypertrie_authe.Prelude.{
  ℕ, zero, suc, ◌+◌, ◌*◌, ◌%◌, List, [], ◌∷◌, Option, none, some, Bool, true, false, not, ltb,
  length, take, get_elem?, get_or, if◌then◌else◌, list_eq, nat_eq,
}
use extended_hypertrie_authe.Prelude.Maps.{lookup}
use extended_hypertrie_authe.Prelude.Options.{◌>>=◌}
use extended_hypertrie_authe.Serde.{from_bytes_local}
use extended_hypertrie_authe.Storage.Backend.{KeyValueDb, DbColumn, column_get}
use extended_hypertrie_authe.Storage.Layout.{flatten_array}
use extended_hypertrie_authe.Storage.Access.{World, get as get_entry}
use extended_hypertrie_authe.Amt.NodeIndex.{NodeIndex, node_eq, leaf, needs_maintain}
use extended_hypertrie_authe.Amt.Params.{Curve, AmtParams}
use extended_hypertrie_authe.Amt.Tree.{
  set_commitment, subtree_root_mut, get_data, write_versions, drop_guard, update,
}
use extended_hypertrie_authe.MultiLayer.Key.{Key, tree_at_level, index_at_level}
use extended_hypertrie_authe.MultiLayer.TreeName.{TreeName, root}
use extended_hypertrie_authe.MultiLayer.Node.{Node, fr_int_pow_2, max_version_number}
use extended_hypertrie_authe.MultiLayer.Config.{forest_config}
use extended_hypertrie_authe.MultiLayer.VersionTree.{
  VerInfo, root_key, insert_mark, push_version, bump_version, Tree, TreeWithInfo, TreesLayer,
  VersionTree, produce_tree, entry_or_new, resize_forest, put_tree,
}

module _ (c : Curve) (depths : ℕ) (db : KeyValueDb) where
  -- `subtree_root`, with the tree after the access.
  unfoldable pub subtree_root : Tree c depths → World db.State → ℕ → Option (c.G × Tree c depths)
  subtree_root t w index = do
    (root, _) ← get_entry db c.serde flatten_array c.zero_point t.subtree_roots w index
    t' ← subtree_root_mut c (forest_config c depths) db t w index (λ g. g)
    some (root, t')

  -- `VersionTree::new`
  unfoldable pub new_forest :
      DbColumn → World db.State → Option NodeIndex → Option (VersionTree c depths)
  unfolding produce_tree
  new_forest column w shard_node = do
    commitment ← elim (column_get db column w.store root_key) [
      | none ↦ some c.zero_point
      | some x ↦ from_bytes_local c.serde x
    ]
    tree ← produce_tree c depths column shard_node root
    let root_tree : TreeWithInfo c depths = record {
      tree = set_commitment c (forest_config c depths) tree commitment;
      mark_in_parent = true;
      children_marks = [];
    }
    some (record { column = column; forest = (([], root_tree) ∷ []) ∷ []; shard_node = shard_node })

  -- The commitment that the tree above keeps, if the tree has none yet.
  unfoldable pub adopt_commitment :
      List (TreesLayer c depths) → List ℕ → c.G → Option (List (TreesLayer c depths))
  adopt_commitment forest path commitment = do
    info ← lookup path (get_or forest (length path) [])
    let tree = set_commitment c (forest_config c depths) info.tree commitment
    some (put_tree c depths forest path (record info { tree = tree }))

  -- The loop over the layers above a tree, from the layer below `level` up to the root.
  unfoldable pub mark_ancestors :
      DbColumn
      → Option NodeIndex
      → World db.State
      → List ℕ
      → ℕ
      → List (TreesLayer c depths)
      → Option (List (TreesLayer c depths))
  unfolding subtree_root adopt_commitment entry_or_new put_tree insert_mark
  mark_ancestors column shard_node w path zero forest = some forest
  mark_ancestors column shard_node w path (suc level) forest = do
    let anc_tree_name = take level path
    sub_index ← get_elem? path level
    info ←
        entry_or_new c depths column shard_node (get_or forest level [])
          (record { path = anc_tree_name })
    (commitment, tree) ← subtree_root info.tree w sub_index
    forest' ← adopt_commitment forest (take (suc level) path) commitment
    let marked = record info {
      tree = tree;
      mark_in_parent = true;
      children_marks = insert_mark sub_index info.children_marks;
    }
    let forest'' = put_tree c depths forest' anc_tree_name marked
    let rest = mark_ancestors column shard_node w path level forest''
    if info.mark_in_parent then some forest'' else rest

  -- `get_tree_mut`: the forest with the tree of the name in it, and marked.
  unfoldable pub get_tree_mut :
      VersionTree c depths → World db.State → TreeName → Option (VersionTree c depths)
  unfolding mark_ancestors
  get_tree_mut vt w name = do
    let level = length name.path
    let forest = resize_forest c depths level vt.forest
    info ← entry_or_new c depths vt.column vt.shard_node (get_or forest level []) name
    let forest' = put_tree c depths forest name.path (record info { mark_in_parent = true })
    let marked = mark_ancestors vt.column vt.shard_node w name.path level forest'
    forest'' ← if info.mark_in_parent then some forest' else marked
    some (record vt { forest = forest'' })

  -- The use of the reference that `get_tree_mut` returns.
  unfoldable pub with_tree :
      {A : Type 0}
      → VersionTree c depths
      → World db.State
      → TreeName
      → (Tree c depths → Option (A × Tree c depths))
      → Option (A × VersionTree c depths)
  unfolding get_tree_mut
  with_tree vt w name use_tree = do
    vt' ← get_tree_mut vt w name
    info ← lookup name.path (get_or vt'.forest (length name.path) [])
    (a, tree) ← use_tree info.tree
    some (
      a,
      record vt' { forest = put_tree c depths vt'.forest name.path (record info { tree = tree }) },
    )

  module _ (pp : AmtParams c) (r : ℕ) where
    -- A write guard that is made, written through and dropped.
    unfoldable pub write_node_versions :
        Tree c depths → World db.State → ℕ → (Node → Option Node) → Option (Node × Tree c depths)
    write_node_versions t w index write = do
      (value, t') ← write_versions c (forest_config c depths) db t w index
      value' ← write value
      t'' ← drop_guard c (forest_config c depths) db pp r t' w index value value'
      some (value, t'')

    -- The tree of one level: its slot, when the node there has one left.
    unfoldable pub take_slot :
        Tree c depths → World db.State → ℕ → Option (Option ℕ × Tree c depths)
    unfolding write_node_versions
    take_slot t w node_index = do
      (node, t') ← get_data c (forest_config c depths) db t w node_index
      let slot_index = length node.key_versions.versions
      if ltb slot_index 5
          then (do
            (_, t'') ← write_node_versions t' w node_index (λ n. some (push_version n))
            some (some slot_index, t''))
          else some (none, t')

    -- `for level in 0..32`, with the number of levels that are left.
    unfoldable pub allocate_from :
        VersionTree c depths
        → World db.State
        → Key
        → ℕ
        → ℕ
        → Option (VerInfo × VersionTree c depths)
    unfolding take_slot with_tree
    allocate_from vt w key level zero = none
    allocate_from vt w key level (suc count) = do
      path ← tree_at_level depths key level
      node_index ← index_at_level depths key level
      (slot, vt') ← with_tree vt w (record { path = path }) (λ t. take_slot t w node_index)
      let rest = allocate_from vt' w key (suc level) count
      elim slot [
        | some slot_index ↦
            some (record { version = 0; level = level; slot_index = slot_index % 256 }, vt')
        | none ↦ rest
      ]

    unfoldable pub allocate_vacant_slot :
        VersionTree c depths → World db.State → Key → Option (VerInfo × VersionTree c depths)
    unfolding allocate_from
    allocate_vacant_slot vt w key = allocate_from vt w key 0 32

    -- Whether the key's leaf in the root tree is of the proof shard.
    unfoldable pub in_proof_shard : VersionTree c depths → Key → Option Bool
    in_proof_shard vt key = elim vt.shard_node [
      | none ↦ some false
      | some shard_node ↦ (do
        index ← index_at_level depths key 0
        root_tree_leaf ← leaf depths index
        needs_maintain depths root_tree_leaf shard_node)
    ]

    unfoldable pub inc_key_ver :
        VersionTree c depths
        → World db.State
        → Key
        → Option VerInfo
        → Option (VerInfo × VersionTree c depths)
    unfolding allocate_vacant_slot in_proof_shard with_tree write_node_versions
    inc_key_ver vt w key version = do
      (info, vt') ← elim version [
        | none ↦ allocate_vacant_slot vt w key
        | some ver_info ↦ some (ver_info, vt)
      ]
      path ← tree_at_level depths key info.level
      node ← index_at_level depths key info.level
      proof_shard ← in_proof_shard vt' key
      (_, vt'') ←
          with_tree vt' w (record { path = path })
            (λ t.
              if not proof_shard
              then (do
                t' ←
                    update c (forest_config c depths) db pp t w node
                      (fr_int_pow_2 ((info.slot_index + 1) * 40))
                some (tt, t'))
              else (do
                (_, t') ← write_node_versions t w node (bump_version info.slot_index)
                some (tt, t')))
      if ltb info.version max_version_number
          then some (record info { version = info.version + 1 }, vt'')
          else none
