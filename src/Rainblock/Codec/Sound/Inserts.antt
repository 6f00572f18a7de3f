-- ===== src/Rainblock/Codec/Sound/Inserts.antt =====
-- insert of asb-authdb/rainblock-trie/src/rain_mpt.rs keeps the caches right.
use extended_hypertrie_authe.Prelude.{
  ℕ, ◌+◌, List, [], ◌∷◌, Option, none, some, length, get_elem?, drop,
}
use extended_hypertrie_authe.Prelude.Options.{◌>>=◌, Ensures, Ensures-bind, Ensures-any}
use extended_hypertrie_authe.Serde.{Bytes}
use extended_hypertrie_authe.Merkle.Hashing.{HashLib}
use extended_hypertrie_authe.Rainblock.Nibble.{Nibbles, common_prefix, add_prefix}
use extended_hypertrie_authe.Rainblock.Node.{
  TrieNode, leaf, branch, extension, ChildRef, null, ref, owned, TrieNodeExt, ext, ChildRefGroup,
  seal, child_at, set_child, empty_group, deleted_digest, exile, set_key, key_of, node_of,
}
use extended_hypertrie_authe.Rainblock.Search.{loaded_mut}
use extended_hypertrie_authe.Rainblock.Insert.{
  place_value, under_prefix, push_down, insert_on_branch, insert_on_leaf, keep_rest,
  insert_on_extension, insert,
}
use extended_hypertrie_authe.Rainblock.Rlp.{Rlp}
use extended_hypertrie_authe.Rainblock.Codec.{IsCoherent, IsCoherentRef, IsCoherentExt, AreCoherent}
use extended_hypertrie_authe.Rainblock.Codec.Sound.{
  IsSound, StandsFor, StandsFor-IsCoherentExt, loaded_mut-StandsFor, AreCoherent-set_child,
  AreCoherent-child_at, AreCoherent-null_group,
}
use extended_hypertrie_authe.Rainblock.Codec.Sound.Exiles.{sealed, IsCoherentRef-exile}

module _ (lib : HashLib) (rlp : Rlp) where
  place_value-AreCoherent :
      (rest : Nibbles) (val : Bytes) (new : ChildRefGroup lib.H256 × Bytes)
      → AreCoherent lib rlp new.0
      → AreCoherent lib rlp ((place_value rest val new).0)
  unfolding place_value
  place_value-AreCoherent [] val (children, value) h = h
  place_value-AreCoherent (i ∷ rest) val (children, value) h =
      AreCoherent-set_child lib rlp children i (owned (seal (leaf rest val))) h
        (sealed lib rlp (leaf rest val) tt)

  under_prefix-IsCoherent :
      (key : Nibbles) (node : TrieNode lib.H256)
      → IsCoherent lib rlp node
      → IsCoherent lib rlp (under_prefix key node)
  unfolding under_prefix
  under_prefix-IsCoherent [] node h = h
  under_prefix-IsCoherent (i ∷ key) node h = sealed lib rlp node h

  insert_on_leaf-IsCoherent :
      (key : Nibbles) (value : Bytes) (remainder : Nibbles) (val : Bytes)
      → IsCoherent lib rlp (insert_on_leaf key value remainder val)
  unfolding insert_on_leaf
  insert_on_leaf-IsCoherent key value remainder val =
      let common = common_prefix remainder key in
      let new = place_value (drop (length common) remainder) val (empty_group, []) in
      let both = place_value (drop (length common) key) value new in
      under_prefix-IsCoherent common (branch both.0 both.1) (
        place_value-AreCoherent (drop (length common) key) value new (
          place_value-AreCoherent (drop (length common) remainder) val (empty_group, [])
            (AreCoherent-null_group lib rlp 16)))

  push_down-AreCoherent :
      (n : ℕ) (prev : TrieNodeExt lib.H256) (depth : ℕ) (new : ChildRefGroup lib.H256 × Bytes)
      → IsCoherentExt lib rlp prev
      → AreCoherent lib rlp new.0
      → Ensures
          (λ (r : ChildRefGroup lib.H256 × Bytes). AreCoherent lib rlp r.0)
          (push_down n prev depth new)
  unfolding push_down
  push_down-AreCoherent n (ext (leaf key value) c) depth new h k =
      place_value-AreCoherent key value new k
  push_down-AreCoherent n (ext (branch children value) c) depth new h k = tt
  push_down-AreCoherent n (ext (extension [] child) c) depth new h k = tt
  push_down-AreCoherent n (ext (extension (i ∷ key) child) c) depth (children, value) h k =
      AreCoherent-set_child lib rlp children i
        (exile n (depth + 2) (owned (seal (extension key child)))) k
        (IsCoherentRef-exile lib rlp n (depth + 2) (owned (seal (extension key child)))
          (sealed lib rlp (extension key child) h.0))

  abbrev CoherentGroup : ChildRefGroup lib.H256 × List lib.H256 → Type 0
  CoherentGroup r = AreCoherent lib rlp r.0

  abbrev pub CoherentNode : TrieNode lib.H256 × List lib.H256 → Type 0
  CoherentNode r = IsCoherent lib rlp r.0

  on_child-CoherentGroup :
      (n : ℕ) (children : ChildRefGroup lib.H256) (idx : ℕ) (rest : Nibbles) (val : Bytes)
      (depth : ℕ)
      → AreCoherent lib rlp children
      → (child : ChildRef lib.H256) → IsCoherentRef lib rlp child
      → Ensures CoherentGroup (elim child [
        | null ↦ some (set_child children idx (owned (seal (leaf rest val))), [])
        | ref h ↦ none
        | owned prev ↦ (do
          (new_children, new_value) ←
              push_down n prev depth (place_value rest val (empty_group, []))
          let new_branch = branch new_children new_value
          some (set_child children idx (owned (seal new_branch)), deleted_digest prev))
      ])
  on_child-CoherentGroup n children idx rest val depth h null k =
      AreCoherent-set_child lib rlp children idx (owned (seal (leaf rest val))) h
        (sealed lib rlp (leaf rest val) tt)
  on_child-CoherentGroup n children idx rest val depth h (ref digest) k = tt
  on_child-CoherentGroup n children idx rest val depth h (owned prev) k =
      let new = place_value rest val (empty_group, []) in
      Ensures-bind (λ (r : ChildRefGroup lib.H256 × Bytes). AreCoherent lib rlp r.0) CoherentGroup
        (push_down n prev depth new) _
        (push_down-AreCoherent n prev depth new k
          (place_value-AreCoherent rest val (empty_group, []) (AreCoherent-null_group lib rlp 16)))
        λ r below.
          AreCoherent-set_child lib rlp children idx (owned (seal (branch r.0 r.1))) h
            (sealed lib rlp (branch r.0 r.1) below)

  insert_on_branch-CoherentGroup :
      (n : ℕ) (children : ChildRefGroup lib.H256) (remainder : Nibbles) (val : Bytes) (depth : ℕ)
      → AreCoherent lib rlp children
      → Ensures CoherentGroup (insert_on_branch n children remainder val depth)
  unfolding insert_on_branch
  insert_on_branch-CoherentGroup n children [] val depth h = tt
  insert_on_branch-CoherentGroup n children (idx ∷ rest) val depth h =
      on_child-CoherentGroup n children idx rest val depth h (child_at children idx)
        (AreCoherent-child_at lib rlp children idx h)

  pub set_key-IsCoherent :
      (node : TrieNode lib.H256) (key : Nibbles)
      → IsCoherent lib rlp node
      → Ensures (IsCoherent lib rlp) (set_key node key)
  unfolding set_key
  set_key-IsCoherent (leaf k value) key h = tt
  set_key-IsCoherent (branch children value) key h = tt
  set_key-IsCoherent (extension k child) key h = h

  module _ (load : lib.H256 → Option (TrieNodeExt lib.H256)) (sound : IsSound lib rlp load) where
    abbrev CoherentChild : ChildRef lib.H256 × List lib.H256 → Type 0
    CoherentChild r = IsCoherentRef lib rlp r.0

    longer_key :
        (n : ℕ) (rest : Nibbles) (depth : ℕ) (child_node : TrieNodeExt lib.H256)
        → IsCoherentExt lib rlp child_node
        → (key : Option Nibbles)
        → Ensures CoherentChild (elim key [
          | none ↦
              let below = exile n (depth + 2) (owned child_node) in
              some (owned (seal (extension rest below)), [])
          | some k ↦ (do
            node ← set_key (node_of child_node) (add_prefix k rest)
            some (owned (seal node), deleted_digest child_node))
        ])
    longer_key n rest depth (ext node c) h none =
        let below = exile n (depth + 2) (owned (ext node c)) in
        (sealed lib rlp) (extension rest below)
          (IsCoherentRef-exile lib rlp n (depth + 2) (owned (ext node c)) h)
    longer_key n rest depth (ext node c) h (some k) =
        Ensures-bind (IsCoherent lib rlp) CoherentChild (set_key node (add_prefix k rest)) _
          (set_key-IsCoherent node (add_prefix k rest) h.0)
          λ new coherent. sealed lib rlp new coherent

    keep_rest-CoherentChild :
        (n : ℕ) (rest : Nibbles) (child : ChildRef lib.H256) (depth : ℕ)
        → IsCoherentRef lib rlp child
        → Ensures CoherentChild (keep_rest load n rest child depth)
    unfolding keep_rest
    keep_rest-CoherentChild n [] child depth h = h
    keep_rest-CoherentChild n (i ∷ rest) child depth h =
        Ensures-bind (StandsFor lib rlp child) CoherentChild (loaded_mut load child) _
          (loaded_mut-StandsFor lib rlp load sound child h)
          λ node stands.
            longer_key n (i ∷ rest) depth node (StandsFor-IsCoherentExt lib rlp child node stands)
              (key_of (node_of node))

    insert_on_extension-CoherentNode :
        (n : ℕ) (key : Nibbles) (child : ChildRef lib.H256) (remainder : Nibbles) (val : Bytes)
        (depth : ℕ)
        → IsCoherentRef lib rlp child
        → Ensures CoherentNode (insert_on_extension load n key child remainder val depth)
    unfolding insert_on_extension
    insert_on_extension-CoherentNode n key child remainder val depth h =
        let common = common_prefix remainder key in
        Ensures-bind (λ (i : ℕ). Unit {0}) CoherentNode (get_elem? key (length common)) _
          (Ensures-any (get_elem? key (length common)))
          λ next_nibble _.
            Ensures-bind CoherentChild CoherentNode
              (keep_rest load n (drop (length common + 1) key) child depth) _
              (keep_rest-CoherentChild n (drop (length common + 1) key) child depth h)
              λ kept coherent.
                let below = exile n (depth + 2) kept.0 in
                let group = set_child empty_group next_nibble below in
                let new = place_value (drop (length common) remainder) val (group, []) in
                under_prefix-IsCoherent common (branch new.0 new.1) (
                  place_value-AreCoherent (drop (length common) remainder) val (group, [])
                    (AreCoherent-set_child lib rlp empty_group next_nibble below
                      (AreCoherent-null_group lib rlp 16)
                      (IsCoherentRef-exile lib rlp n (depth + 2) kept.0 coherent)))

    pub insert-CoherentNode :
        (n : ℕ) (node : TrieNode lib.H256) (remainder : Nibbles) (val : Bytes) (depth : ℕ)
        → IsCoherent lib rlp node
        → Ensures CoherentNode (insert load n node remainder val depth)
    unfolding insert
    insert-CoherentNode n (leaf key value) remainder val depth h =
        insert_on_leaf-IsCoherent key value remainder val
    insert-CoherentNode n (extension key child) remainder val depth h =
        insert_on_extension-CoherentNode n key child remainder val depth h
    insert-CoherentNode n (branch children value) remainder val depth h =
        Ensures-bind CoherentGroup CoherentNode (insert_on_branch n children remainder val depth) _
          (insert_on_branch-CoherentGroup n children remainder val depth h) λ new coherent. coherent
