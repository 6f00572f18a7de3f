-- ===== src/Rainblock/Content.antt =====
-- What a tree of asb-authdb/rainblock-trie holds: a partial function on keys, read through the
-- references to the database.
pub mod Steps
pub mod Frames
pub mod Rebuild
pub mod Exiled
pub mod Placed
pub mod Parted
pub mod Cut
pub mod Inserted
pub mod Joined
pub mod Single
pub mod Removed
pub mod Keys
pub mod Changes
pub mod Mapping
pub mod Refines
pub mod Absent
pub mod Found
pub mod Searching
use extended_hypertrie_authe.Prelude.{
  ℕ, List, [], ◌∷◌, Option, none, some, Bool, true, false, ◌==◌, ◌≡◌, ◌≢◌, ◌<◌, All, list_beq,
  if◌then◌else◌,
}
use extended_hypertrie_authe.Serde.{Bytes}
use extended_hypertrie_authe.Rainblock.Nibble.{Nibbles}
use extended_hypertrie_authe.Rainblock.Node.{
  TrieNode, leaf, branch, extension, ChildRef, null, ref, owned, TrieNodeExt, ext, ChildRefGroup,
  nil, cons, node_of, child_at, group_length,
}

-- An empty value stands for no value.
abbrev pub stored : Bytes → Option Bytes
stored [] = none
stored (b ∷ value) = some (b ∷ value)

module _ {H : Type 0} (load : H → Option (TrieNodeExt H)) where
  abbrev pub resolve : ChildRef H → Option (TrieNode H)
  resolve null = none
  resolve (ref digest) = elim (load digest) [ none ↦ none | some node ↦ some (node_of node) ]
  resolve (owned (ext node cache)) = some node

  -- The value of a key, below a node and what is left of the key of an extension above it.
  unfoldable pub look : Nibbles → TrieNode H → Nibbles → Option Bytes
  look (p ∷ pending) node [] = none
  look (p ∷ pending) node (i ∷ key) = if p == i then look pending node key else none
  look [] (leaf k value) key = if list_beq k key then stored value else none
  look [] (branch children value) [] = stored value
  look [] (branch children value) (i ∷ key) = elim (resolve (child_at children i)) [
    | none ↦ none
    | some node ↦ look [] node key
  ]
  look [] (extension [] child) key = none
  look [] (extension (p ∷ pending) child) [] = none
  look [] (extension (p ∷ pending) child) (i ∷ key) = elim (resolve child) [
    | none ↦ none
    | some node ↦ if p == i then look pending node key else none
  ]

  abbrev pub find : TrieNode H → Nibbles → Option Bytes
  find node key = look [] node key

  abbrev pub find_child : ChildRef H → Nibbles → Option Bytes
  find_child child key = elim (resolve child) [ none ↦ none | some node ↦ find node key ]

  abbrev pub IsBranch : TrieNode H → Type 0
  IsBranch (branch children value) = Unit
  IsBranch _ = ⊥

  abbrev pub LeadsToBranch : ChildRef H → Type 0
  LeadsToBranch child = (node : TrieNode H) × (resolve child ≡ some node) × IsBranch node

  abbrev pub AreNibbles : Nibbles → Type 0
  AreNibbles = All (λ (i : ℕ). i < 16)

  -- The shape of a tree; `Known` are the digests of nodes that the database has.
  module _ (Known : H → Type 0) where
    abbrev mutual
      pub IsTrie : TrieNode H → Type 0
      IsTrie (leaf key value) = AreNibbles key × (value ≢ [])
      IsTrie (branch children value) = (group_length children ≡ 16) × AreTries children
      IsTrie (extension key child) =
          AreNibbles key × (key ≢ []) × IsTrieRef child × LeadsToBranch child

      pub IsTrieRef : ChildRef H → Type 0
      IsTrieRef null = Unit
      IsTrieRef (ref digest) = Known digest
      IsTrieRef (owned node) = IsTrieExt node

      pub IsTrieExt : TrieNodeExt H → Type 0
      IsTrieExt (ext node cache) = IsTrie node

      pub AreTries : ChildRefGroup H → Type 0
      AreTries nil = Unit
      AreTries (cons c children) = IsTrieRef c × AreTries children

    -- Every known node can be read and has the shape of a tree.
    abbrev pub IsClosed : Type 0
    IsClosed =
        (digest : H)
        → Known digest
        → (node : TrieNodeExt H) × (load digest ≡ some node) × IsTrieExt node
