-- ===== src/Checks/TrieRuns.antt =====
-- The trie of asb-authdb/rainblock-trie at concrete values, all in memory.
use extended_hypertrie_authe.Prelude.{
  ℕ, List, [], ◌∷◌, Option, none, some, ◌≡◌, ◌≢◌, refl, list_beq, arith,
}
use extended_hypertrie_authe.Prelude.Options.{◌>>=◌}
use extended_hypertrie_authe.Serde.{Bytes}
use extended_hypertrie_authe.Rainblock.Node.{
  TrieNode, leaf, branch, extension, owned, TrieNodeExt, ChildRefGroup, fresh, seal, set_child,
  empty_group,
}
use extended_hypertrie_authe.Rainblock.Nibble.{bytes_to_nibble_list, from_hi, strip_prefix}
use extended_hypertrie_authe.Rainblock.Search.{Stack, search}
use extended_hypertrie_authe.Rainblock.Insert.{insert}
use extended_hypertrie_authe.Rainblock.Remove.{remove}
use extended_hypertrie_authe.Rainblock.Ops.{MerklePatriciaTree, get, put}
use extended_hypertrie_authe.Rainblock.Content.{stored, find, look, IsTrie, IsClosed}
use extended_hypertrie_authe.Rainblock.Content.Steps.{update}
use extended_hypertrie_authe.Rainblock.Content.Frames.{around}
use extended_hypertrie_authe.Rainblock.Content.Found.{Found}
use extended_hypertrie_authe.Rainblock.Content.Searching.{search-Found}
use extended_hypertrie_authe.Rainblock.Content.Parted.{Inserts}
use extended_hypertrie_authe.Rainblock.Content.Inserted.{insert-Inserts}
use extended_hypertrie_authe.Rainblock.Content.Removed.{Removes, remove-Removes}
use extended_hypertrie_authe.Rainblock.Content.Refines.{
  holds, IsTree, put_in, put_all, replay, put-holds, get-holds, put_all-replay,
}
use extended_hypertrie_authe.Rainblock.Content.Absent.{get-forked}

abbrev pub no_load : ℕ → Option (TrieNodeExt ℕ)
no_load digest = none

abbrev pub NoneKnown : ℕ → Type 0
NoneKnown digest = ⊥

pub none_closed : IsClosed no_load NoneKnown
none_closed digest known = absurd known

abbrev empty_tree : MerklePatriciaTree ℕ
empty_tree = record { root = none; del_ops = [] }

abbrev pub left_leaf : TrieNode ℕ
left_leaf = leaf (0 ∷ []) (1 ∷ [])

abbrev pub right_leaf : TrieNode ℕ
right_leaf = leaf (0 ∷ []) (2 ∷ [])

abbrev pub two_children : ChildRefGroup ℕ
two_children =
    set_child (set_child empty_group 1 (owned (seal left_leaf))) 2 (owned (seal right_leaf))

abbrev pub two_branch : TrieNode ℕ
two_branch = branch two_children []

abbrev pub two_node : TrieNode ℕ
two_node = extension (1 ∷ 2 ∷ []) (owned (seal two_branch))

-- The keys 0x1210 and 0x1220.
abbrev pub two_keys : MerklePatriciaTree ℕ
two_keys = record { root = some (seal two_node); del_ops = [] }

leaf-IsTrie : (b : ℕ) → IsTrie no_load NoneKnown (leaf (0 ∷ []) (b ∷ []))
leaf-IsTrie b = ((omega (arith), tt), λ eq. cc)

two_branch-IsTrie : IsTrie no_load NoneKnown two_branch
two_branch-IsTrie = (
  refl,
  (
    tt,
    (
      leaf-IsTrie 1,
      (
        leaf-IsTrie 2,
        (tt, (tt, (tt, (tt, (tt, (tt, (tt, (tt, (tt, (tt, (tt, (tt, (tt, tt))))))))))))),
      ),
    ),
  ),
)

pub two_keys-IsTree : IsTree no_load NoneKnown two_keys
two_keys-IsTree =
    ((omega (arith), (omega (arith), tt)), (λ eq. cc), two_branch-IsTrie, (two_branch, refl, tt))

two_puts :
    (put no_load 2 empty_tree (0x12 ∷ 0x10 ∷ []) (1 ∷ []) >>= λ t.
    put no_load 2 t (0x12 ∷ 0x20 ∷ []) (2 ∷ []))
    ≡ some two_keys
unfolding put list_beq
two_puts = refl

put-holds_example :
    (new : MerklePatriciaTree ℕ) × (put no_load 2 two_keys (0x12 ∷ []) (7 ∷ []) ≡ some new)
    × IsTree no_load NoneKnown new
    × ((k : Bytes)
        → holds no_load NoneKnown new k
          ≡ put_in (holds no_load NoneKnown two_keys) (0x12 ∷ []) (7 ∷ []) k)
put-holds_example =
    put-holds no_load NoneKnown none_closed 2 two_keys (0x12 ∷ []) (7 ∷ []) two_keys-IsTree
      (omega (arith), tt) (λ eq. cc)

get-holds_example :
    (r : Option Bytes) × (new : MerklePatriciaTree ℕ) × (get no_load 2 two_keys (0x12 ∷ 0x10 ∷ [])
      ≡ some (r, new))
    × ((r >>= stored) ≡ holds no_load NoneKnown two_keys (0x12 ∷ 0x10 ∷ []))
    × IsTree no_load NoneKnown new
    × ((k : Bytes) → holds no_load NoneKnown new k ≡ holds no_load NoneKnown two_keys k)
get-holds_example =
    get-holds no_load NoneKnown none_closed 2 two_keys (0x12 ∷ 0x10 ∷ []) two_keys-IsTree
      (omega (arith), (omega (arith), tt)) (λ eq. cc)

put_all-replay_example :
    (new : MerklePatriciaTree ℕ) × (put_all no_load 2 two_keys
        ((0x12 ∷ 0x10 ∷ [], []) ∷ (0x12 ∷ [], 7 ∷ []) ∷ [])
      ≡ some new)
    × IsTree no_load NoneKnown new
    × (holds no_load NoneKnown new
        ≡ replay
            (holds no_load NoneKnown two_keys)
            ((0x12 ∷ 0x10 ∷ [], []) ∷ (0x12 ∷ [], 7 ∷ []) ∷ []))
put_all-replay_example =
    put_all-replay no_load NoneKnown none_closed 2 two_keys
      ((0x12 ∷ 0x10 ∷ [], []) ∷ (0x12 ∷ [], 7 ∷ []) ∷ []) two_keys-IsTree
      ((omega (arith), (omega (arith), tt)), (λ eq. cc), ((omega (arith), tt), (λ eq. cc), tt))

holds_left : holds no_load NoneKnown two_keys (0x12 ∷ 0x10 ∷ []) ≡ some (1 ∷ [])
unfolding look bytes_to_nibble_list list_beq
holds_left = refl

holds_right : holds no_load NoneKnown two_keys (0x12 ∷ 0x20 ∷ []) ≡ some (2 ∷ [])
unfolding look bytes_to_nibble_list list_beq
holds_right = refl

holds_fork : holds no_load NoneKnown two_keys (0x12 ∷ []) ≡ none
unfolding look bytes_to_nibble_list
holds_fork = refl

held : {o : Option Bytes} (v : Bytes) → o ≡ some v → o ≢ none
held v e h = cc

high_halves : from_hi 0x10 ≢ from_hi 0x20
unfolding from_hi
high_halves eq = omega (arith, eq)

get-forked_example :
    (new : MerklePatriciaTree ℕ) × (get no_load 2 two_keys (0x12 ∷ []) ≡ some (some [], new))
get-forked_example =
    get-forked no_load NoneKnown 2 two_keys (0x12 ∷ []) [] [] 0x10 0x20 none_closed two_keys-IsTree
      (omega (arith), tt) (λ eq. cc) holds_fork (held (1 ∷ []) holds_left)
      (held (2 ∷ []) holds_right) high_halves

search-Found_example :
    Found no_load NoneKnown
      (search no_load 2 (seal two_node) (1 ∷ 2 ∷ 1 ∷ 0 ∷ []))
      (find no_load two_node)
      (1 ∷ 2 ∷ 1 ∷ 0 ∷ [])
search-Found_example =
    search-Found no_load NoneKnown 2 none_closed two_node fresh (1 ∷ 2 ∷ 1 ∷ 0 ∷ []) two_keys-IsTree
      (omega (arith), (omega (arith), (omega (arith), (omega (arith), tt))))

insert-Inserts_example :
    (new : TrieNode ℕ) × (digests : List ℕ) × (insert no_load 2 two_node (1 ∷ 3 ∷ []) (7 ∷ []) 0
      ≡ some (new, digests))
    × Inserts no_load NoneKnown two_node new (1 ∷ 3 ∷ []) (7 ∷ [])
unfolding strip_prefix
insert-Inserts_example =
    insert-Inserts no_load NoneKnown 2 two_node (1 ∷ 3 ∷ []) (1 ∷ 3 ∷ []) (7 ∷ []) 0 none_closed
      two_keys-IsTree (omega (arith), (omega (arith), tt)) (refl, refl) (λ eq. cc)

abbrev branch_frame : Stack ℕ
branch_frame = (seal two_branch, some 1) ∷ []

remove-Removes_example :
    Removes no_load NoneKnown
      (remove no_load ((seal left_leaf, none) ∷ branch_frame))
      (around no_load NoneKnown branch_frame (update (find no_load left_leaf) (0 ∷ []) none))
remove-Removes_example =
    remove-Removes no_load NoneKnown left_leaf fresh branch_frame [] (0 ∷ []) none_closed
      (leaf-IsTrie 1) ((two_branch-IsTrie.0, two_branch-IsTrie.1, omega (arith)), tt, tt) tt refl
