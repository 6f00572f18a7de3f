-- ===== src/Rainblock/Database.antt =====
-- asb-authdb/rainblock-trie/src: load_children of trie_node_ext.rs, and new, root, commit and
-- flush_all of rain_mpt.rs, on the state of the database. `n` is TOP_LAYER_DEPTH, which is not
-- zero; `none` is a panic, and an error of a write or a flush is not modelled.
use extended_hypertrie_authe.Prelude.{
  ℕ, zero, suc, ◌-◌, List, [], ◌∷◌, ◌++◌, Option, none, some, Bool, true, false, map,
}
use extended_hypertrie_authe.Prelude.Options.{◌>>=◌}
use extended_hypertrie_authe.Serde.{Bytes}
use extended_hypertrie_authe.Storage.Backend.{KeyValueDb, DbOp, insert, delete}
use extended_hypertrie_authe.Merkle.Hashing.{HashLib}
use extended_hypertrie_authe.Rainblock.Node.{
  TrieNode, leaf, branch, extension, ChildRef, null, ref, owned, TrieNodeExt, ext, ChildRefGroup,
  nil, cons, Commit, working,
}
use extended_hypertrie_authe.Rainblock.Search.{owned_or_load}
use extended_hypertrie_authe.Rainblock.Ops.{MerklePatriciaTree}
use extended_hypertrie_authe.Rainblock.Rlp.{Rlp, hash, get_rlp_encode}
use extended_hypertrie_authe.Rainblock.Commits.{
  root_key, PutOps, load_from, truncate_at, commit_node,
}

-- The `assert` of `load_children`.
abbrev pub not_working : Commit → Bool
not_working working = false
not_working _ = true

module _ {H : Type 0} (load : H → Option (TrieNodeExt H)) where
  -- What `load_children` does with a child; `deeper` is `load_children` one level down.
  unfoldable pub load_child :
      (TrieNodeExt H → Option (TrieNodeExt H)) → ChildRef H → Option (ChildRef H)
  unfolding owned_or_load
  load_child deeper child = do
    found ← owned_or_load load child
    elim found [
      | none ↦ some null
      | some (node, is_loaded) ↦ (do node' ← deeper node; some (owned node'))
    ]

  unfoldable pub load_group :
      (TrieNodeExt H → Option (TrieNodeExt H)) → ChildRefGroup H → Option (ChildRefGroup H)
  unfolding load_child
  load_group deeper nil = some nil
  load_group deeper (cons c children) = do
    c' ← load_child deeper c
    children' ← load_group deeper children
    some (cons c' children')

  unfoldable pub load_below :
      (TrieNodeExt H → Option (TrieNodeExt H)) → TrieNode H → Option (TrieNode H)
  unfolding load_group load_child
  load_below deeper (leaf key value) = some (leaf key value)
  load_below deeper (branch children value) = do
    children' ← load_group deeper children
    some (branch children' value)
  load_below deeper (extension key child) = do
    child' ← load_child deeper child
    some (extension key child')

  -- `load_children` with so many levels left.
  unfoldable pub load_children : ℕ → TrieNodeExt H → Option (TrieNodeExt H)
  unfolding load_below
  load_children zero me = some me
  load_children (suc levels) (ext node cache) = elim (not_working cache.commited) [
    | true ↦ (do node' ← load_below (load_children levels) node; some (ext node' cache))
    | false ↦ none
  ]

module _ (lib : HashLib) (rlp : Rlp) where
  -- As often as the node stands in `exile_nodes`.
  abbrev pub repeat : ℕ → lib.H256 × Bytes → PutOps lib rlp
  repeat zero op = []
  repeat (suc count) op = op ∷ repeat count op

  unfoldable pub put_times :
      ℕ → TrieNodeExt lib.H256 → Option (TrieNodeExt lib.H256 × PutOps lib rlp)
  unfolding hash get_rlp_encode
  put_times zero node = some (node, [])
  put_times (suc count) node = do
    (digest, hashed) ← hash lib rlp node
    (rlp_encode, encoded) ← get_rlp_encode lib rlp hashed
    some (encoded, repeat (suc count) (digest, rlp_encode))

  -- The loop over `exile_nodes`.
  unfoldable mutual
    pub drain_exiled : TrieNodeExt lib.H256 → Option (TrieNodeExt lib.H256 × PutOps lib rlp)
    drain_exiled (ext node cache) = do
      (node', below) ← exiled_below node
      (me, own) ← put_times cache.exiled (ext node' (record cache { exiled = 0 }))
      some (me, below ++ own)

    pub exiled_below : TrieNode lib.H256 → Option (TrieNode lib.H256 × PutOps lib rlp)
    exiled_below (leaf key value) = some (leaf key value, [])
    exiled_below (branch children value) = do
      (children', ops) ← exiled_group children
      some (branch children' value, ops)
    exiled_below (extension key child) = do
      (child', ops) ← exiled_child child
      some (extension key child', ops)

    pub exiled_child : ChildRef lib.H256 → Option (ChildRef lib.H256 × PutOps lib rlp)
    exiled_child null = some (null, [])
    exiled_child (ref digest) = some (ref digest, [])
    exiled_child (owned node) = do (node', ops) ← drain_exiled node; some (owned node', ops)

    pub exiled_group : ChildRefGroup lib.H256 → Option (ChildRefGroup lib.H256 × PutOps lib rlp)
    exiled_group nil = some (nil, [])
    exiled_group (cons c children) = do
      (c', ops) ← exiled_child c
      (children', more) ← exiled_group children
      some (cons c' children', ops ++ more)

  -- The loop over `loaded_node`.
  unfoldable mutual
    pub drain_loaded : TrieNodeExt lib.H256 → Option (TrieNodeExt lib.H256)
    drain_loaded (ext node cache) = do
      node' ← loaded_below node
      truncate_at lib rlp cache.loaded (ext node' (record cache { loaded = false }))

    pub loaded_below : TrieNode lib.H256 → Option (TrieNode lib.H256)
    loaded_below (leaf key value) = some (leaf key value)
    loaded_below (branch children value) = do
      children' ← loaded_group children
      some (branch children' value)
    loaded_below (extension key child) = do child' ← loaded_child child; some (extension key child')

    pub loaded_child : ChildRef lib.H256 → Option (ChildRef lib.H256)
    loaded_child null = some null
    loaded_child (ref digest) = some (ref digest)
    loaded_child (owned node) = do node' ← drain_loaded node; some (owned node')

    pub loaded_group : ChildRefGroup lib.H256 → Option (ChildRefGroup lib.H256)
    loaded_group nil = some nil
    loaded_group (cons c children) = do
      c' ← loaded_child c
      children' ← loaded_group children
      some (cons c' children')

  abbrev pub delete_op : lib.H256 → DbOp
  delete_op digest = delete 0 (lib.as_bytes digest)

  abbrev pub insert_op : lib.H256 × Bytes → DbOp
  insert_op (digest, value) = insert 0 (lib.as_bytes digest) value

  module _ (db : KeyValueDb) (n : ℕ) where
    -- One transaction for each operation.
    abbrev pub write_each : db.State → List DbOp → db.State
    write_each s [] = s
    write_each s (op ∷ ops) = write_each (db.write_buffered s (op ∷ [])) ops

    unfoldable pub new : db.State → Option (MerklePatriciaTree lib.H256)
    unfolding load_from load_children
    new s = elim (db.get s 0 root_key) [
      | none ↦ some (record { root = none; del_ops = [] })
      | some digest ↦ (do
        node ← load_from lib rlp db s (lib.from_slice digest)
        root ← load_children (load_from lib rlp db s) (n - 1) node
        some (record { root = some root; del_ops = [] }))
    ]

    -- `root`: the digest, and the tree with what is cached.
    unfoldable pub root_digest :
        MerklePatriciaTree lib.H256 → Option (Option lib.H256 × MerklePatriciaTree lib.H256)
    unfolding hash
    root_digest t = elim t.root [
      | none ↦ some (none, t)
      | some root ↦ (do
        (digest, root') ← hash lib rlp root
        some (some digest, record t { root = some root' }))
    ]

    -- `commit` of a tree that is not empty.
    unfoldable pub commit_root :
        TrieNodeExt lib.H256
        → List lib.H256
        → db.State
        → Option (lib.H256 × (MerklePatriciaTree lib.H256 × db.State))
    unfolding drain_exiled commit_node drain_loaded hash
    commit_root root del_ops s = do
      (exiled, exile_ops) ← drain_exiled root
      (kept, put_ops) ← commit_node lib rlp n 0 false exiled
      truncated ← drain_loaded kept
      let deleted = write_each s (map delete_op del_ops)
      let written = write_each deleted (map insert_op (exile_ops ++ put_ops))
      (digest, hashed) ← hash lib rlp truncated
      let rooted = db.write_buffered written (insert 0 root_key (lib.as_bytes digest) ∷ [])
      some (digest, (record { root = some hashed; del_ops = [] }, db.flush rooted))

    -- An empty tree has the digest `EMPTY_ROOT`, and its root key is deleted.
    unfoldable pub commit :
        MerklePatriciaTree lib.H256
        → db.State
        → Option (lib.H256 × (MerklePatriciaTree lib.H256 × db.State))
    unfolding commit_root
    commit t s = elim t.root [
      | some root ↦ commit_root root t.del_ops s
      | none ↦
          let unrooted = db.write_buffered s (delete 0 root_key ∷ []) in
          let deleted = write_each unrooted (map delete_op t.del_ops) in
          some (lib.default, (record { root = none; del_ops = [] }, db.flush deleted))
    ]

    -- The nodes of the top layers, which `commit` leaves in memory.
    unfoldable pub flush_all :
        MerklePatriciaTree lib.H256 → db.State → Option (MerklePatriciaTree lib.H256 × db.State)
    unfolding commit_node
    flush_all t s = elim t.root [
      | none ↦ some (t, db.flush s)
      | some root ↦ (do
        (root', put_ops) ← commit_node lib rlp n 0 true root
        some (record t { root = some root' }, db.flush (write_each s (map insert_op put_ops))))
    ]
