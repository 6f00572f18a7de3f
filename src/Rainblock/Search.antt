-- ===== src/Rainblock/Search.antt =====
-- asb-authdb/rainblock-trie/src: how a key is followed (trie_node.rs: next; rain_mpt.rs: search),
-- and the pointers of the path (reset_pointers, recover_pointers). `load` reads a node of the
-- database; its `none` and every other `none` is a panic.
use extended_hypertrie_authe.Prelude.{
  ℕ, zero, suc, ◌+◌, List, [], ◌∷◌, ◌++◌, Option, none, some, Bool, true, false, ◌&&◌, leb,
  list_beq, length, if◌then◌else◌,
}
use extended_hypertrie_authe.Prelude.Options.{◌>>=◌}
use extended_hypertrie_authe.Rainblock.Nibble.{Nibbles, strip_prefix}
use extended_hypertrie_authe.Rainblock.Node.{
  leaf, branch, extension, ChildRef, null, ref, owned, TrieNodeExt, ext, seal, child_at, set_child,
  set_child_of, deleted_digest,
}

pub data NextResult (H : Type 0) : Type 0 where
  matched not_matched : NextResult H
  next : TrieNodeExt H → ℕ → NextResult H

-- The nodes on the path, the last one first, each with the child that the search went to.
abbrev pub Stack : Type 0 → Type 0
Stack H = List (TrieNodeExt H × Option ℕ)

pub record SearchResult (H : Type 0) : Type 0 where
  pub stack : Stack H
  pub is_match : Bool
  pub remainder : Nibbles

module _ {H : Type 0} (load : H → Option (TrieNodeExt H)) where
  -- The node of a child that is not null, and whether it is read from the database only now.
  unfoldable pub owned_or_load : ChildRef H → Option (Option (TrieNodeExt H × Bool))
  owned_or_load null = some none
  owned_or_load (ref digest) = do node ← load digest; some (some (node, true))
  owned_or_load (owned node) = some (some (node, false))

  -- The same without the mark, for a child that must not be null.
  unfoldable pub loaded_mut : ChildRef H → Option (TrieNodeExt H)
  loaded_mut null = none
  loaded_mut (ref digest) = load digest
  loaded_mut (owned node) = some node

  -- The push to `truncate_ops` of a node whose child was read.
  abbrev pub mark_loaded : ℕ → ℕ → Bool → TrieNodeExt H → TrieNodeExt H
  mark_loaded n depth is_loaded (ext node cache) =
      ext node (record cache { loaded = if is_loaded && leb n depth then true else cache.loaded })

  -- The result, the node with its child in memory, and what is left of the nibbles.
  unfoldable pub next_of :
      ℕ → TrieNodeExt H → Nibbles → ℕ → Option (NextResult H × (TrieNodeExt H × Nibbles))
  unfolding owned_or_load
  next_of n (ext (branch children value) cache) [] depth =
      some (matched, (ext (branch children value) cache, []))
  next_of n (ext (branch children value) cache) (branch_key ∷ nibbles) depth = do
    child ← owned_or_load (child_at children branch_key)
    elim child [
      | none ↦ some (not_matched, (ext (branch children value) cache, branch_key ∷ nibbles))
      | some (node, is_loaded) ↦
          let me = ext (branch (set_child children branch_key (owned node)) value) cache in
          some (next node branch_key, (mark_loaded n depth is_loaded me, nibbles))
    ]
  next_of n (ext (extension key child) cache) nibbles depth = elim (strip_prefix key nibbles) [
    | none ↦ some (not_matched, (ext (extension key child) cache, nibbles))
    | some rest ↦ (do
      child ← owned_or_load child
      (node, is_loaded) ← child
      let me = ext (extension key (owned node)) cache
      some (next node 0, (mark_loaded n depth is_loaded me, rest)))
  ]
  next_of n (ext (leaf key value) cache) nibbles depth =
      if list_beq key nibbles
      then some (matched, (ext (leaf key value) cache, []))
      else some (not_matched, (ext (leaf key value) cache, nibbles))

  -- The loop of `search`, on fuel.
  unfoldable pub search_loop :
      ℕ → ℕ → TrieNodeExt H → Stack H → Nibbles → ℕ → Option (SearchResult H)
  unfolding next_of
  search_loop zero n node stack nibbles depth = none
  search_loop (suc fuel) n node stack nibbles depth = do
    (result, (me, rest)) ← next_of n node nibbles depth
    elim result [
      | matched ↦ some (record { stack = (me, none) ∷ stack; is_match = true; remainder = rest })
      | not_matched ↦
          some (record { stack = (me, none) ∷ stack; is_match = false; remainder = rest })
      | next node' pos ↦ search_loop fuel n node' ((me, some pos) ∷ stack) rest (suc depth)
    ]

  -- Every step but the last takes a nibble.
  unfoldable pub search : ℕ → TrieNodeExt H → Nibbles → Option (SearchResult H)
  unfolding search_loop
  search n root nibbles = search_loop (length nibbles + 1) n root [] nibbles 1

module _ {H : Type 0} where
  -- The root of a path that is not changed: every node shares its child with the path.
  unfoldable pub settle : Option (TrieNodeExt H) → Stack H → Option (TrieNodeExt H)
  settle last [] = last
  settle last ((me, none) ∷ stack) = settle (some me) stack
  settle last ((ext node cache, some idx) ∷ stack) = do
    child ← last
    node' ← set_child_of node idx (owned child)
    settle (some (ext node' cache)) stack

  -- The path with the pointers to its nodes cut, and the deleted digests, the root's first.
  unfoldable pub reset_pointers : Stack H → Option (Stack H × List H)
  unfolding deleted_digest
  reset_pointers [] = some ([], [])
  reset_pointers ((me, none) ∷ stack) = do
    (stack', digests) ← reset_pointers stack
    some ((me, none) ∷ stack', digests)
  reset_pointers ((ext node cache, some idx) ∷ stack) = do
    (stack', digests) ← reset_pointers stack
    node' ← set_child_of node idx null
    some ((seal node', some idx) ∷ stack', digests ++ deleted_digest (ext node cache))

  -- The new root and the deleted digests.
  unfoldable pub recover_pointers :
      Option (TrieNodeExt H) → Stack H → Option (Option (TrieNodeExt H) × List H)
  unfolding deleted_digest
  recover_pointers last_child [] = some (last_child, [])
  recover_pointers last_child ((me, none) ∷ stack) = recover_pointers (some me) stack
  recover_pointers last_child ((ext node cache, some idx) ∷ stack) = do
    child ← last_child
    node' ← set_child_of node idx (owned child)
    (root, digests) ← recover_pointers (some (seal node')) stack
    some (root, deleted_digest (ext node cache) ++ digests)
