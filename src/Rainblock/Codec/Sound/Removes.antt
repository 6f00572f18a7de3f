-- ===== src/Rainblock/Codec/Sound/Removes.antt =====
-- remove and the pointers of a path in asb-authdb/rainblock-trie/src/rain_mpt.rs keep the caches
-- right.
use extended_hypertrie_authe.Prelude.{ℕ, List, [], ◌∷◌, Option, none, some, ◌≡◌, refl, sym, subst}
use extended_hypertrie_authe.Prelude.Options.{◌>>=◌, Ensures, Ensures-any, Ensures-bind, Ensures-if}
use extended_hypertrie_authe.Merkle.Hashing.{HashLib}
use extended_hypertrie_authe.Rainblock.Nibble.{Nibbles, add_prefix}
use extended_hypertrie_authe.Rainblock.Node.{
  TrieNode, leaf, branch, extension, ChildRef, null, owned, TrieNodeExt, ext, ChildRefGroup,
  NodeCache, fresh, seal, child_at, set_child, set_child_of, no_child, only_child, key_of, set_key,
}
use extended_hypertrie_authe.Rainblock.Search.{Stack, loaded_mut, recover_pointers}
use extended_hypertrie_authe.Rainblock.Remove.{
  push_non_branch_to_stack, connect_node, drop_single_child_branch, shrink_branch, remove_leaf,
  remove,
}
use extended_hypertrie_authe.Rainblock.Rlp.{Rlp}
use extended_hypertrie_authe.Rainblock.Codec.{IsCoherent, IsCoherentRef, IsCoherentExt, AreCoherent}
use extended_hypertrie_authe.Rainblock.Codec.Sound.{
  IsSound, StandsFor, StandsFor-IsCoherentExt, loaded_mut-StandsFor, AreCoherent-set_child,
  AreCoherent-child_at, set_child_of-IsCoherent,
}
use extended_hypertrie_authe.Rainblock.Codec.Sound.Inserts.{set_key-IsCoherent}

module _ (lib : HashLib) (rlp : Rlp) where
  -- The nodes of a path that is to be put together again; the last has no caches.
  abbrev pub AreSealed : Stack lib.H256 → Type 0
  AreSealed [] = Unit
  AreSealed ((ext node cache, none) ∷ stack) =
      IsCoherent lib rlp node × (cache ≡ fresh) × AreSealed stack
  AreSealed ((ext node cache, some idx) ∷ stack) = IsCoherent lib rlp node × AreSealed stack

  abbrev pub SealedStack : Stack lib.H256 × List lib.H256 → Type 0
  SealedStack r = AreSealed r.0

  abbrev CoherentNode : TrieNode lib.H256 × List lib.H256 → Type 0
  CoherentNode r = IsCoherent lib rlp r.0

  longer :
      (node : TrieNode lib.H256) (prefix : Nibbles) (stack : Stack lib.H256)
      → IsCoherent lib rlp node
      → AreSealed stack
      → Ensures AreSealed (
          key_of node >>= λ key.
          set_key node (add_prefix key prefix) >>= λ after. some ((seal after, none) ∷ stack))
  longer node prefix stack h s =
      Ensures-bind (λ (key : Nibbles). Unit {0}) AreSealed (key_of node) _
        (Ensures-any (key_of node))
        λ key _.
          Ensures-bind (IsCoherent lib rlp) AreSealed (set_key node (add_prefix key prefix)) _
            (set_key-IsCoherent lib rlp node (add_prefix key prefix) h)
            λ after coherent. (coherent, refl, s)

  push_non_branch-AreSealed :
      (node : TrieNode lib.H256) (stack : Stack lib.H256)
      → IsCoherent lib rlp node
      → AreSealed stack
      → Ensures AreSealed (push_non_branch_to_stack node stack)
  unfolding push_non_branch_to_stack
  push_non_branch-AreSealed node [] h s = (h, refl, tt)
  push_non_branch-AreSealed node ((ext (leaf k v) c, idx) ∷ stack) h s = (h, refl, s)
  push_non_branch-AreSealed node ((ext (branch k v) c, idx) ∷ stack) h s = (h, refl, s)
  push_non_branch-AreSealed node ((ext (extension k x) c, none) ∷ stack) h s =
      longer node k stack h s.2
  push_non_branch-AreSealed node ((ext (extension k x) c, some idx) ∷ stack) h s =
      longer node k stack h s.1

  connect_node-CoherentNode :
      (idx : ℕ) (child : TrieNodeExt lib.H256)
      → IsCoherentExt lib rlp child
      → Ensures CoherentNode (connect_node idx child)
  unfolding connect_node key_of set_key
  connect_node-CoherentNode idx (ext (leaf k v) c) h = tt
  connect_node-CoherentNode idx (ext (branch children v) c) h = h
  connect_node-CoherentNode idx (ext (extension k x) c) h = h.0

  module _ (load : lib.H256 → Option (TrieNodeExt lib.H256)) (sound : IsSound lib rlp load) where
    drop_single-CoherentNode :
        (idx : ℕ) (child : ChildRef lib.H256)
        → IsCoherentRef lib rlp child
        → Ensures CoherentNode (drop_single_child_branch load idx child)
    unfolding drop_single_child_branch
    drop_single-CoherentNode idx child h =
        Ensures-bind (StandsFor lib rlp child) CoherentNode (loaded_mut load child) _
          (loaded_mut-StandsFor lib rlp load sound child h)
          λ node stands.
            connect_node-CoherentNode idx node (StandsFor-IsCoherentExt lib rlp child node stands)

    joined :
        (children : ChildRefGroup lib.H256) (stack : Stack lib.H256)
        → AreCoherent lib rlp children
        → AreSealed stack
        → (only : Option ℕ)
        → Ensures SealedStack (elim only [
          | some idx ↦ (do
            (connect_node, digests) ← drop_single_child_branch load idx (child_at children idx)
            stack' ← push_non_branch_to_stack connect_node stack
            some (stack', digests))
          | none ↦ some ((seal (branch children []), none) ∷ stack, [])
        ])
    joined children stack h s none = (h, refl, s)
    joined children stack h s (some idx) =
        Ensures-bind CoherentNode SealedStack
          (drop_single_child_branch load idx (child_at children idx)) _
          (drop_single-CoherentNode idx (child_at children idx)
            (AreCoherent-child_at lib rlp children idx h))
          λ r coherent.
            Ensures-bind AreSealed SealedStack (push_non_branch_to_stack r.0 stack) _
              (push_non_branch-AreSealed r.0 stack coherent s) λ new sealed. sealed

    shrink_branch-SealedStack :
        (children : ChildRefGroup lib.H256) (stack : Stack lib.H256)
        → AreCoherent lib rlp children
        → AreSealed stack
        → Ensures SealedStack (shrink_branch load children stack)
    unfolding shrink_branch
    shrink_branch-SealedStack children stack h s = joined children stack h s (only_child children)

    remove_leaf-SealedStack :
        (stack : Stack lib.H256) → AreSealed stack → Ensures SealedStack (remove_leaf load stack)
    unfolding remove_leaf
    remove_leaf-SealedStack [] s = tt
    remove_leaf-SealedStack ((ext (leaf k v) c, idx) ∷ stack) s = tt
    remove_leaf-SealedStack ((ext (extension k v) c, idx) ∷ stack) s = tt
    remove_leaf-SealedStack ((ext (branch children value) c, none) ∷ stack) s = tt
    remove_leaf-SealedStack ((ext (branch children []) c, some i) ∷ stack) s =
        let coherent = AreCoherent-set_child lib rlp children i null s.0 tt in
        Ensures-bind SealedStack SealedStack (shrink_branch load (set_child children i null) stack)
          _ (shrink_branch-SealedStack (set_child children i null) stack coherent s.1)
          λ new sealed. sealed
    remove_leaf-SealedStack ((ext (branch children (b ∷ value)) c, some i) ∷ stack) s =
        let coherent = AreCoherent-set_child lib rlp children i null s.0 tt in
        Ensures-if SealedStack (no_child (set_child children i null)) _ _
          (Ensures-bind AreSealed SealedStack (push_non_branch_to_stack (leaf [] (b ∷ value)) stack)
            _ (push_non_branch-AreSealed (leaf [] (b ∷ value)) stack tt s.1) λ new sealed. sealed)
          (coherent, refl, s.1)

    pub remove-SealedStack :
        (last : TrieNode lib.H256) (cache : NodeCache lib.H256) (idx : Option ℕ)
        (stack : Stack lib.H256)
        → IsCoherent lib rlp last
        → AreSealed stack
        → Ensures SealedStack (remove load ((ext last cache, idx) ∷ stack))
    unfolding remove
    remove-SealedStack (extension k x) cache idx stack h s = tt
    remove-SealedStack (branch children value) cache idx stack h s =
        Ensures-bind SealedStack SealedStack (shrink_branch load children stack) _
          (shrink_branch-SealedStack children stack h s) λ new sealed. sealed
    remove-SealedStack (leaf k v) cache idx stack h s =
        Ensures-bind SealedStack SealedStack (remove_leaf load stack) _
          (remove_leaf-SealedStack stack s) λ new sealed. sealed

  -- The root of a new path.
  abbrev pub IsSealed : Option (TrieNodeExt lib.H256) → Type 0
  IsSealed none = Unit
  IsSealed (some (ext node cache)) = IsCoherent lib rlp node × (cache ≡ fresh)

  abbrev SealedRoot : Option (TrieNodeExt lib.H256) × List lib.H256 → Type 0
  SealedRoot r = IsSealed r.0

  sealed_child :
      (node : TrieNode lib.H256) (cache : NodeCache lib.H256)
      → IsCoherent lib rlp node
      → cache ≡ fresh
      → IsCoherentRef lib rlp (owned (ext node cache))
  sealed_child node cache h e =
      subst (λ (c : NodeCache lib.H256). IsCoherentRef lib rlp (owned (ext node c))) (sym e)
        (h, (refl, refl))

  pub recover_pointers-SealedRoot :
      (child : Option (TrieNodeExt lib.H256)) (stack : Stack lib.H256)
      → IsSealed child
      → AreSealed stack
      → Ensures SealedRoot (recover_pointers child stack)
  unfolding recover_pointers
  recover_pointers-SealedRoot child [] h s = h
  recover_pointers-SealedRoot child ((ext node c, none) ∷ stack) h s =
      recover_pointers-SealedRoot (some (ext node c)) stack (s.0, s.1) s.2
  recover_pointers-SealedRoot none ((ext node c, some idx) ∷ stack) h s = tt
  recover_pointers-SealedRoot (some (ext below b)) ((ext node c, some idx) ∷ stack) h s =
      let child = owned (ext below b) in
      Ensures-bind (IsCoherent lib rlp) SealedRoot (set_child_of node idx child) _
        (set_child_of-IsCoherent lib rlp node idx child s.0 (sealed_child below b h.0 h.1))
        λ after coherent.
          Ensures-bind SealedRoot SealedRoot (recover_pointers (some (seal after)) stack) _
            (recover_pointers-SealedRoot (some (seal after)) stack (coherent, refl) s.1)
            λ root sealed. sealed
