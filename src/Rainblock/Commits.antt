-- ===== src/Rainblock/Commits.antt =====
-- asb-authdb/rainblock-trie/src: load, load_children, truncate and commit of trie_node_ext.rs, and
-- new, root, commit and flush_all of rain_mpt.rs. `n` is TOP_LAYER_DEPTH, which is not zero; `none`
-- is a panic. The weak pointers of `exile_nodes` and `loaded_node` are marks on the nodes of the
-- tree, and are visited in the order of the tree.
use extended_hypertrie_authe.Prelude.{
  ℕ, suc, ◌+◌, ◌*◌, List, [], ◌∷◌, ◌++◌, Option, none, some, Bool, true, false, not, ◌&&◌, ◌||◌,
  ◌==◌, ltb, leb, length, if◌then◌else◌,
}
use extended_hypertrie_authe.Prelude.Options.{◌>>=◌}
use extended_hypertrie_authe.Serde.{Bytes}
use extended_hypertrie_authe.Storage.Backend.{KeyValueDb}
use extended_hypertrie_authe.Merkle.Hashing.{HashLib}
use extended_hypertrie_authe.Rainblock.Node.{
  TrieNode, leaf, branch, extension, ChildRef, null, ref, owned, TrieNodeExt, ext, ChildRefGroup,
  nil, cons, Commit, committed, light, cache_of,
}
use extended_hypertrie_authe.Rainblock.Rlp.{Rlp, get_rlp_encode, hash_with}
use extended_hypertrie_authe.Rainblock.Load.{decode_node}

-- `ROOT_KEY`
abbrev pub root_key : Bytes
root_key = 0x80 ∷ []

-- The node is in the database, or too short to be there.
abbrev pub is_clean : Commit → Bool
is_clean committed = true
is_clean light = true
is_clean _ = false

abbrev pub set_committed : {H : Type 0} → TrieNodeExt H → TrieNodeExt H
set_committed (ext node cache) = ext node (record cache { commited = committed })

module _ (lib : HashLib) (rlp : Rlp) where
  abbrev pub PutOps : Type 0
  PutOps = List (lib.H256 × Bytes)

  -- `TrieNode::new` of the bytes that stand at a digest, and the rest of `load`. An encoding has at
  -- most 17 parts, each of them shorter.
  unfoldable pub from_loaded : lib.H256 → Bytes → Option (TrieNodeExt lib.H256)
  unfolding decode_node
  from_loaded digest loaded = do
    node ← decode_node lib rlp (20 * (length loaded + 1)) loaded
    some (
        ext node (record {
          hash = some digest;
          rlp_encode = some loaded;
          commited = committed;
          exiled = 0;
          loaded = false;
        }))

  -- `TrieNodeExt::load`
  unfoldable pub load_from : (db : KeyValueDb) → db.State → lib.H256 → Option (TrieNodeExt lib.H256)
  unfolding from_loaded
  load_from db s digest = do loaded ← db.get s 0 (lib.as_bytes digest); from_loaded digest loaded

  -- `ChildRef::truncate`: a child that the database has by its digest.
  unfoldable pub truncate_child : ChildRef lib.H256 → Option (ChildRef lib.H256)
  unfolding get_rlp_encode hash_with
  truncate_child null = some null
  truncate_child (ref digest) = some (ref digest)
  truncate_child (owned node) = do
    (rlp_encode, node') ← get_rlp_encode lib rlp node
    some (
        if ltb (length rlp_encode) 32
        then owned node'
        else ref ((hash_with lib rlp rlp_encode node').0))

  unfoldable pub truncate_group : ChildRefGroup lib.H256 → Option (ChildRefGroup lib.H256)
  unfolding truncate_child
  truncate_group nil = some nil
  truncate_group (cons c children) = do
    c' ← truncate_child c
    children' ← truncate_group children
    some (cons c' children')

  unfoldable pub truncate : TrieNode lib.H256 → Option (TrieNode lib.H256)
  unfolding truncate_group truncate_child
  truncate (leaf key value) = some (leaf key value)
  truncate (branch children value) = do
    children' ← truncate_group children
    some (branch children' value)
  truncate (extension key child) = do child' ← truncate_child child; some (extension key child')

  -- The end of `commit`, on the node at the depth `N - 1`.
  unfoldable pub truncate_at : Bool → TrieNodeExt lib.H256 → Option (TrieNodeExt lib.H256)
  unfolding truncate
  truncate_at at_bottom (ext node cache) =
      if at_bottom
      then (do node' ← truncate node; some (ext node' cache))
      else some (ext node cache)

  -- `commit` of a node whose children are done.
  unfoldable pub commit_self :
      ℕ → ℕ → Bool → TrieNodeExt lib.H256 → Option (TrieNodeExt lib.H256 × PutOps)
  unfolding get_rlp_encode hash_with
  commit_self n depth top_layer node = do
    (rlp_encode, node') ← get_rlp_encode lib rlp node
    if leb 32 (length rlp_encode) || depth == 0
        then (let (digest, me) = hash_with lib rlp rlp_encode node' in
            some (
              set_committed me,
              (if leb n depth || top_layer then (digest, rlp_encode) ∷ [] else []),
            ))
        else elim (cache_of node').commited [ light ↦ some (node', []) | _ ↦ none ]

  unfoldable mutual
    -- `TrieNodeExt::commit`: the node after it, and what it adds to `put_ops`.
    pub commit_node : ℕ → ℕ → Bool → TrieNodeExt lib.H256 → Option (TrieNodeExt lib.H256 × PutOps)
    commit_node n depth top_layer (ext node cache) =
        let rest = (do
          (node', below) ← commit_below n (suc depth) top_layer node
          (me, own) ← commit_self n depth top_layer (ext node' cache)
          me' ← truncate_at (suc depth == n && not top_layer) me
          some (me', below ++ own)) in
        if leb n depth && top_layer
        then some (ext node cache, [])
        else if is_clean cache.commited && not top_layer
        then some (ext node cache, [])
        else rest

    pub commit_below : ℕ → ℕ → Bool → TrieNode lib.H256 → Option (TrieNode lib.H256 × PutOps)
    commit_below n depth top_layer (leaf key value) = some (leaf key value, [])
    commit_below n depth top_layer (branch children value) = do
      (children', ops) ← commit_group n depth top_layer children
      some (branch children' value, ops)
    commit_below n depth top_layer (extension key child) = do
      (child', ops) ← commit_child n depth top_layer child
      some (extension key child', ops)

    -- `ChildRef::commit`
    pub commit_child : ℕ → ℕ → Bool → ChildRef lib.H256 → Option (ChildRef lib.H256 × PutOps)
    commit_child n depth top_layer null = some (null, [])
    commit_child n depth top_layer (ref digest) = some (ref digest, [])
    commit_child n depth top_layer (owned node) = do
      (node', ops) ← commit_node n depth top_layer node
      some (owned node', ops)

    pub commit_group :
        ℕ → ℕ → Bool → ChildRefGroup lib.H256 → Option (ChildRefGroup lib.H256 × PutOps)
    commit_group n depth top_layer nil = some (nil, [])
    commit_group n depth top_layer (cons c children) = do
      (c', ops) ← commit_child n depth top_layer c
      (children', more) ← commit_group n depth top_layer children
      some (cons c' children', ops ++ more)
