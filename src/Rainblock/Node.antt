-- ===== src/Rainblock/Node.antt =====
-- asb-authdb/rainblock-trie/src: the nodes of trie_node.rs, the references of child_ref.rs and the
-- cached data of trie_node_ext.rs. A node has one owner while it is changed, so `NodePtr` is the
-- node. A weak pointer to a node is a mark on it: `make_mut` moves the node to a new place, which
-- its weak pointers do not follow, and so clears the marks.
use Prim.Native.Nat.{compare, Ordering}
use Prim.Native.Nat.Ordering.{lt, eq, gt}
use extended_hypertrie_authe.Prelude.{
  ℕ, zero, suc, ◌+◌, List, [], ◌∷◌, Option, none, some, Bool, true, false, ◌==◌, if◌then◌else◌,
}
use extended_hypertrie_authe.Serde.{Bytes}
use extended_hypertrie_authe.Rainblock.Nibble.{Nibbles}

pub data Commit : Type 0 where
  committed pending light working : Commit

module _ (H : Type 0) where
  -- The fields of `TrieNodeExt` beside the node, and how often the node stands in `exile_nodes`
  -- and whether it stands in `loaded_node`.
  pub record NodeCache : Type 0 where
    pub hash : Option H
    pub rlp_encode : Option Bytes
    pub commited : Commit
    pub exiled : ℕ
    pub loaded : Bool

  mutual
    pub data TrieNode : Type 0 where
      leaf : Nibbles → Bytes → TrieNode
      branch : ChildRefGroup → Bytes → TrieNode
      extension : Nibbles → ChildRef → TrieNode

    pub data ChildRef : Type 0 where
      null : ChildRef
      ref : H → ChildRef
      owned : TrieNodeExt → ChildRef

    pub data TrieNodeExt : Type 0 where
      ext : TrieNode → NodeCache → TrieNodeExt

    pub data ChildRefGroup : Type 0 where
      nil : ChildRefGroup
      cons : ChildRef → ChildRefGroup → ChildRefGroup

module _ {H : Type 0} where
  abbrev pub fresh : NodeCache H
  fresh = record { hash = none; rlp_encode = none; commited = working; exiled = 0; loaded = false }

  -- `TrieNode::seal`, and a node after `TrieNodeExt::make_mut`.
  abbrev pub seal : TrieNode H → TrieNodeExt H
  seal node = ext node fresh

  abbrev pub node_of : TrieNodeExt H → TrieNode H
  node_of (ext node cache) = node

  abbrev pub cache_of : TrieNodeExt H → NodeCache H
  cache_of (ext node cache) = cache

  -- `TrieNodeExt::make_mut`: what it adds to `del_ops`.
  unfoldable pub deleted_digest : TrieNodeExt H → List H
  deleted_digest (ext node cache) = elim cache.commited [
    | committed ↦ elim cache.hash [ none ↦ [] | some digest ↦ digest ∷ [] ]
    | _ ↦ []
  ]

  abbrev pub group_length : ChildRefGroup H → ℕ
  group_length nil = 0
  group_length (cons c children) = suc (group_length children)

  abbrev pub child_at : ChildRefGroup H → ℕ → ChildRef H
  child_at nil i = null
  child_at (cons c children) zero = c
  child_at (cons c children) (suc i) = child_at children i

  abbrev pub set_child : ChildRefGroup H → ℕ → ChildRef H → ChildRefGroup H
  set_child nil i new = nil
  set_child (cons c children) zero new = cons new children
  set_child (cons c children) (suc i) new = cons c (set_child children i new)

  abbrev pub null_group : ℕ → ChildRefGroup H
  null_group zero = nil
  null_group (suc n) = cons null (null_group n)

  -- `ChildRefGroup::default`
  abbrev pub empty_group : ChildRefGroup H
  empty_group = null_group 16

  unfoldable pub no_child : ChildRefGroup H → Bool
  no_child nil = true
  no_child (cons null children) = no_child children
  no_child (cons _ children) = false

  -- The loop of `only_child_mut`, from the child `idx` on.
  unfoldable pub only_child_from : ℕ → Option ℕ → ChildRefGroup H → Option ℕ
  only_child_from idx non_null nil = non_null
  only_child_from idx non_null (cons null children) = only_child_from (suc idx) non_null children
  only_child_from idx none (cons (ref h) children) = only_child_from (suc idx) (some idx) children
  only_child_from idx none (cons (owned n) children) = only_child_from (suc idx) (some idx) children
  only_child_from idx (some i) (cons (ref h) children) = none
  only_child_from idx (some i) (cons (owned n) children) = none

  unfoldable pub only_child : ChildRefGroup H → Option ℕ
  unfolding only_child_from
  only_child children = only_child_from 0 none children

  unfoldable pub key_of : TrieNode H → Option Nibbles
  key_of (leaf key value) = some key
  key_of (branch children value) = none
  key_of (extension key child) = some key

  -- A write through `key_mut`.
  unfoldable pub set_key : TrieNode H → Nibbles → Option (TrieNode H)
  set_key (leaf key value) new = some (leaf new value)
  set_key (branch children value) new = none
  set_key (extension key child) new = some (extension new child)

  unfoldable pub value_of : TrieNode H → Option Bytes
  value_of (leaf key value) = some value
  value_of (branch children value) = some value
  value_of (extension key child) = none

  -- A write through `value_mut`.
  unfoldable pub set_value : TrieNode H → Bytes → Option (TrieNode H)
  set_value (leaf key value) new = some (leaf key new)
  set_value (branch children value) new = some (branch children new)
  set_value (extension key child) new = none

  -- A write through `child_mut`.
  unfoldable pub set_child_of : TrieNode H → ℕ → ChildRef H → Option (TrieNode H)
  set_child_of (leaf key value) index new = none
  set_child_of (branch children value) index new =
      some (branch (set_child children index new) value)
  set_child_of (extension key child) index new =
      if index == 0 then some (extension key new) else none

  -- A node under, at and over the depth that is marked.
  abbrev pub exile_at : Ordering → TrieNode H → NodeCache H → TrieNode H → TrieNodeExt H
  exile_at gt node cache below = ext node cache
  exile_at eq node cache below = ext node (record cache { exiled = cache.exiled + 1 })
  exile_at lt node cache below = ext below cache

  unfoldable mutual
    -- `TrieNodeExt::exile` and `ChildRef::exile`: marks the nodes at the depth `n`.
    pub exile_node : ℕ → ℕ → TrieNodeExt H → TrieNodeExt H
    exile_node n depth (ext node cache) =
        exile_at (compare depth n) node cache (exile_below n (suc depth) node)

    pub exile_below : ℕ → ℕ → TrieNode H → TrieNode H
    exile_below n depth (leaf key value) = leaf key value
    exile_below n depth (branch children value) = branch (exile_group n depth children) value
    exile_below n depth (extension key child) = extension key (exile n depth child)

    pub exile : ℕ → ℕ → ChildRef H → ChildRef H
    exile n depth null = null
    exile n depth (ref h) = ref h
    exile n depth (owned node) = owned (exile_node n depth node)

    pub exile_group : ℕ → ℕ → ChildRefGroup H → ChildRefGroup H
    exile_group n depth nil = nil
    exile_group n depth (cons c children) = cons (exile n depth c) (exile_group n depth children)
