-- ===== src/MultiLayer/VersionTree/Commit.antt =====
-- multi_layer_amt/tree.rs: the commit of an epoch. A layer holds the trees with one length of name,
-- so the recursion is on the number of layers.
use extended_hypertrie_authe.Prelude.{
  ℕ, zero, suc, ◌+◌, ◌%◌, ◌^◌, List, [], ◌∷◌, ◌++◌, Option, none, some, Bool, false, not, ◌==◌,
  length, get_or, if◌then◌else◌, list_eq, nat_eq,
}
use extended_hypertrie_authe.Prelude.Maps.{lookup, insert}
use extended_hypertrie_authe.Prelude.Options.{◌>>=◌}
use extended_hypertrie_authe.Serde.{to_bytes_local}
use extended_hypertrie_authe.Storage.Backend.{
  insert as insert_op, KeyValueDb, column_write_buffered,
}
use extended_hypertrie_authe.Storage.Access.{World}
use extended_hypertrie_authe.Amt.NodeIndex.{node_eq}
use extended_hypertrie_authe.Amt.Params.{Curve, AmtParams}
use extended_hypertrie_authe.Amt.Tree.{subtree_root_mut, write_versions, drop_guard, flush}
use extended_hypertrie_authe.MultiLayer.TreeName.{TreeName, child, root}
use extended_hypertrie_authe.MultiLayer.Config.{forest_config}
use extended_hypertrie_authe.MultiLayer.VersionTree.{
  root_key, sort_unstable, bump_tree_version, Tree, TreeWithInfo, TreesLayer, VersionTree, Recorder,
  put_tree,
}
use extended_hypertrie_authe.MultiLayer.VersionTree.Visit.{get_tree_mut}

module _ (c : Curve) (depths : ℕ) (db : KeyValueDb) (pp : AmtParams c) (r : ℕ) where
  abbrev pub Layers : Type 0
  Layers = List (TreesLayer c depths)

  -- `split_first_mut`
  unfoldable split_first : Layers → Option (TreesLayer c depths × Layers)
  split_first [] = none
  split_first (layer ∷ layers) = some (layer, layers)

  -- What a commit changes.
  pub record Progress : Type 0 where
    pub layers : Layers
    pub updates : Recorder c depths
    pub world : World db.State

  -- What is done in a tree for a child that is dirty: its commitment, its version and its
  -- position in the epoch are written.
  unfoldable pub record_child :
      ℕ → ℕ → TreeName → ℕ → c.G → Tree c depths → Progress → Option (Tree c depths × Progress)
  record_child epoch start_pos child_name index commitment tree p = do
    t1 ← subtree_root_mut c (forest_config c depths) db tree p.world index (λ _. commitment)
    (value, t2) ← write_versions c (forest_config c depths) db t1 p.world index
    let position = (start_pos + length p.updates) % 2 ^ 64
    let node = bump_tree_version epoch position value
    t3 ← drop_guard c (forest_config c depths) db pp r t2 p.world index value node
    some
        (t3, record p { updates = p.updates ++ (child_name, (node.tree_version, commitment)) ∷ [] })

  -- The loop over the marked children, in order. `commit_child` is the recursive call.
  unfoldable pub commit_children :
      (TreeName → Progress → Option ((Bool × c.G) × Progress))
      → ℕ
      → ℕ
      → TreeName
      → List ℕ
      → Tree c depths
      → Progress
      → Option (Tree c depths × Progress)
  unfolding record_child
  commit_children commit_child epoch start_pos name [] tree p = some (tree, p)
  commit_children commit_child epoch start_pos name (index ∷ indices) tree p = do
    let child_name = child name index
    ((dirty, commitment), p') ← commit_child child_name p
    (tree', p'') ←
        if dirty
        then record_child epoch start_pos child_name index commitment tree p'
        else some (tree, p')
    commit_children commit_child epoch start_pos name indices tree' p''

  -- `commit_tree`. The layers of the progress are this one and those below it.
  unfoldable pub commit_tree : ℕ → ℕ → ℕ → TreeName → Progress → Option ((Bool × c.G) × Progress)
  unfolding commit_children sort_unstable split_first
  commit_tree zero epoch start_pos name p = none
  commit_tree (suc count) epoch start_pos name p = do
    (this_layer, rest_layers) ← split_first p.layers
    tree_with_info ← lookup name.path this_layer
    (tree, p') ←
        commit_children (commit_tree count epoch start_pos) epoch start_pos name
          (sort_unstable tree_with_info.children_marks) tree_with_info.tree
          (record p { layers = rest_layers })
    ((commitment, tree'), world) ←
        if not (length name.path == 0)
        then flush c (forest_config c depths) db tree p'.world
        else (do commitment ← tree.commitment; some ((commitment, tree), p'.world))
    let info : TreeWithInfo c depths = record {
      tree = tree';
      mark_in_parent = false;
      children_marks = [];
    }
    some (
      (tree.dirty, commitment),
      record {
        layers = insert name.path info this_layer ∷ p'.layers;
        updates = p'.updates;
        world = world;
      },
    )

  -- `commit`, with the updates that its iterator returns.
  unfoldable pub commit :
      VersionTree c depths
      → World db.State
      → ℕ
      → ℕ
      → Option ((c.G × Recorder c depths) × (VersionTree c depths × World db.State))
  unfolding commit_tree
  commit vt w epoch start_pos = do
    ((_, commitment), p) ←
        commit_tree (length vt.forest) epoch start_pos root
          (record { layers = vt.forest; updates = []; world = w })
    some ((commitment, p.updates), (record vt { forest = p.layers }, p.world))

  unfoldable pub flush_all :
      VersionTree c depths → World db.State → Option (VersionTree c depths × World db.State)
  unfolding get_tree_mut
  flush_all vt w = do
    vt' ← get_tree_mut c depths db vt w root
    info ← lookup [] (get_or vt'.forest 0 [])
    ((commitment, tree), w') ← flush c (forest_config c depths) db info.tree w
    let forest = put_tree c depths vt'.forest [] (record info { tree = tree })
    let ops = insert_op 0 root_key (to_bytes_local c.serde commitment) ∷ []
    some (
      record vt' { forest = forest },
      record w' { store = column_write_buffered db vt'.column w'.store ops },
    )
