-- ===== src/Rainblock/Codec/Sound/Changes.antt =====
-- The changes of put and del in asb-authdb/rainblock-trie/src/rain_mpt.rs, on the path of a search,
-- keep the caches right.
use extended_hypertrie_authe.Prelude.{
  ℕ, List, [], ◌∷◌, ◌++◌, Option, none, some, Bool, true, refl, sym, subst, length, if◌then◌else◌,
}
use extended_hypertrie_authe.Prelude.Options.{◌>>=◌, Ensures, Ensures-bind, Ensures-if}
use extended_hypertrie_authe.Serde.{Bytes}
use extended_hypertrie_authe.Merkle.Hashing.{HashLib}
use extended_hypertrie_authe.Rainblock.Nibble.{Nibbles}
use extended_hypertrie_authe.Rainblock.Node.{
  TrieNode, leaf, branch, extension, null, TrieNodeExt, ext, NodeCache, seal, node_of, set_value,
  set_child_of, deleted_digest,
}
use extended_hypertrie_authe.Rainblock.Search.{Stack, reset_pointers, recover_pointers}
use extended_hypertrie_authe.Rainblock.Insert.{insert}
use extended_hypertrie_authe.Rainblock.Remove.{remove}
use extended_hypertrie_authe.Rainblock.Ops.{MerklePatriciaTree, put_on_path, del_path}
use extended_hypertrie_authe.Rainblock.Rlp.{Rlp}
use extended_hypertrie_authe.Rainblock.Codec.{encode, IsCoherent, IsCoherentRoot}
use extended_hypertrie_authe.Rainblock.Codec.Sound.{IsSound, set_child_of-IsCoherent}
use extended_hypertrie_authe.Rainblock.Codec.Sound.Paths.{AreHeld}
use extended_hypertrie_authe.Rainblock.Codec.Sound.Steps.{Holds, AreSlots}
use extended_hypertrie_authe.Rainblock.Codec.Sound.Inserts.{CoherentNode, insert-CoherentNode}
use extended_hypertrie_authe.Rainblock.Codec.Sound.Removes.{
  AreSealed, SealedStack, remove-SealedStack, IsSealed, recover_pointers-SealedRoot,
}

module _ (lib : HashLib) (rlp : Rlp) where
  -- The caches of a tree are right.
  abbrev pub RootCoherent : Option (TrieNodeExt lib.H256) → Type 0
  RootCoherent none = Unit
  RootCoherent (some root) = IsCoherentRoot lib rlp root

  abbrev pub IsCoherentTree : MerklePatriciaTree lib.H256 → Type 0
  IsCoherentTree t = RootCoherent t.root

  pub sealed-RootCoherent :
      (root : Option (TrieNodeExt lib.H256)) → IsSealed lib rlp root → RootCoherent root
  sealed-RootCoherent none h = tt
  sealed-RootCoherent (some (ext node cache)) h =
      subst (λ (c : NodeCache lib.H256). IsCoherentRoot lib rlp (ext node c)) (sym h.1)
        (h.0, (refl, refl))

  pub held-RootCoherent :
      (whole : Bytes) (root : Option (TrieNodeExt lib.H256))
      → Ensures (Holds lib rlp true whole) root
      → RootCoherent root
  held-RootCoherent whole none h = tt
  held-RootCoherent whole (some (ext node cache)) h = (h.0, h.1)

  pub reset_pointers-SealedStack :
      (whole bytes : Bytes) (stack : Stack lib.H256)
      → AreSlots lib rlp whole stack bytes
      → Ensures (SealedStack lib rlp) (reset_pointers stack)
  unfolding reset_pointers
  reset_pointers-SealedStack whole bytes [] h = tt
  reset_pointers-SealedStack whole bytes ((ext node c, none) ∷ stack) h = absurd h
  reset_pointers-SealedStack whole bytes ((ext node c, some idx) ∷ stack) (held, slot, slots) =
      Ensures-bind (SealedStack lib rlp) (SealedStack lib rlp) (reset_pointers stack) _
        (reset_pointers-SealedStack whole (encode lib rlp node) stack slots)
        λ cut sealed.
          Ensures-bind (IsCoherent lib rlp) (SealedStack lib rlp) (set_child_of node idx null) _
            (set_child_of-IsCoherent lib rlp node idx null held.0 tt)
            λ after coherent. (coherent, sealed)

  pub set_value-IsCoherent :
      (node : TrieNode lib.H256) (val : Bytes)
      → IsCoherent lib rlp node
      → Ensures (IsCoherent lib rlp) (set_value node val)
  unfolding set_value
  set_value-IsCoherent (leaf k v) val h = tt
  set_value-IsCoherent (branch children v) val h = h
  set_value-IsCoherent (extension k x) val h = tt

  module _ (load : lib.H256 → Option (TrieNodeExt lib.H256)) (sound : IsSound lib rlp load)
      (n : ℕ) where
    pub changed :
        (is_match : Bool) (node : TrieNode lib.H256) (remainder : Nibbles) (val : Bytes) (depth : ℕ)
        → IsCoherent lib rlp node
        → Ensures (CoherentNode lib rlp) (
            if is_match
            then (do after ← set_value node val; some (after, []))
            else insert load n node remainder val depth)
    changed is_match node remainder val depth h =
        Ensures-if (CoherentNode lib rlp) is_match _ _
          (Ensures-bind (IsCoherent lib rlp) (CoherentNode lib rlp) (set_value node val) _
            (set_value-IsCoherent node val h) λ after coherent. coherent)
          (insert-CoherentNode lib rlp load sound n node remainder val depth h)

    -- The tree of a new path.
    pub recovered :
        (stack : Stack lib.H256) (make : List lib.H256 → List lib.H256)
        → AreSealed lib rlp stack
        → Ensures IsCoherentTree
            (recover_pointers none stack >>= λ r. some (record { root = r.0; del_ops = make r.1 }))
    recovered stack make h =
        Ensures-bind (λ (r : Option (TrieNodeExt lib.H256) × List lib.H256). IsSealed lib rlp r.0)
          IsCoherentTree (recover_pointers none stack) _
          (recover_pointers-SealedRoot lib rlp none stack tt h)
          λ r sealed. sealed-RootCoherent r.0 sealed

    -- A path with its pointers cut, over its last node.
    abbrev pub CutStack : Stack lib.H256 × List lib.H256 → Type 0
    CutStack ([], digests) = Unit
    CutStack ((ext node c, none) ∷ stack, digests) =
        IsCoherent lib rlp node × AreSealed lib rlp stack
    CutStack ((ext node c, some idx) ∷ stack, digests) = ⊥

    pub reset_pointers-CutStack :
        (whole : Bytes) (stack : Stack lib.H256)
        → AreHeld lib rlp load sound n whole stack
        → Ensures CutStack (reset_pointers stack)
    unfolding reset_pointers
    reset_pointers-CutStack whole [] h = tt
    reset_pointers-CutStack whole ((ext node c, some idx) ∷ stack) h = absurd h
    reset_pointers-CutStack whole ((ext node c, none) ∷ stack) (held, slots) =
        Ensures-bind (SealedStack lib rlp) CutStack (reset_pointers stack) _
          (reset_pointers-SealedStack whole (encode lib rlp node) stack slots)
          λ cut sealed. (held.0, sealed)

    pub put_after :
        (t : MerklePatriciaTree lib.H256) (is_match : Bool) (remainder : Nibbles) (val : Bytes)
        (cut : Stack lib.H256 × List lib.H256)
        → CutStack cut
        → Ensures IsCoherentTree (elim cut.0 [
          | [] ↦ none
          | (last, idx) ∷ below ↦ (do
            (node, inserted) ←
                (if is_match
                  then (do node ← set_value (node_of last) val; some (node, []))
                  else insert load n (node_of last) remainder val (length below))
            (root, recovered) ← recover_pointers none ((seal node, none) ∷ below)
            some (record {
              root = root;
              del_ops = t.del_ops ++ cut.1 ++ deleted_digest last ++ inserted ++ recovered;
            }))
        ])
    put_after t is_match remainder val ([], digests) h = tt
    put_after t is_match remainder val ((ext node c, some idx) ∷ stack, digests) h = absurd h
    put_after t is_match remainder val ((ext node c, none) ∷ stack, digests) (coherent, sealed) =
        Ensures-bind (CoherentNode lib rlp) IsCoherentTree
          (if is_match
            then (do after ← set_value node val; some (after, []))
            else insert load n node remainder val (length stack))
          _ (changed is_match node remainder val (length stack) coherent)
          λ new held.
            recovered ((seal new.0, none) ∷ stack)
              (λ (more : List lib.H256).
                t.del_ops ++ digests ++ deleted_digest (ext node c) ++ new.1 ++ more)
              (held, refl, sealed)

    pub put_on_path-IsCoherentTree :
        (t : MerklePatriciaTree lib.H256) (whole : Bytes) (stack : Stack lib.H256) (is_match : Bool)
        (remainder : Nibbles) (val : Bytes)
        → AreHeld lib rlp load sound n whole stack
        → Ensures IsCoherentTree (put_on_path load n t stack is_match remainder val)
    unfolding put_on_path
    put_on_path-IsCoherentTree t whole stack is_match remainder val h =
        Ensures-bind CutStack IsCoherentTree (reset_pointers stack) _
          (reset_pointers-CutStack whole stack h) (put_after t is_match remainder val)

    pub del_after :
        (t : MerklePatriciaTree lib.H256) (cut : Stack lib.H256 × List lib.H256)
        → CutStack cut
        → Ensures IsCoherentTree (
            remove load cut.0 >>= λ r. recover_pointers none r.0 >>= λ q.
            some (record { root = q.0; del_ops = t.del_ops ++ cut.1 ++ r.1 ++ q.1 }))
    unfolding remove
    del_after t ([], digests) h = tt
    del_after t ((ext node c, some idx) ∷ stack, digests) h = absurd h
    del_after t ((ext node c, none) ∷ stack, digests) (coherent, sealed) =
        Ensures-bind (SealedStack lib rlp) IsCoherentTree (remove load ((ext node c, none) ∷ stack))
          _ (remove-SealedStack lib rlp load sound node c none stack coherent sealed)
          λ r held.
            recovered r.0 (λ (more : List lib.H256). t.del_ops ++ digests ++ r.1 ++ more) held

    pub del_path-IsCoherentTree :
        (t : MerklePatriciaTree lib.H256) (whole : Bytes) (stack : Stack lib.H256)
        → AreHeld lib rlp load sound n whole stack
        → Ensures IsCoherentTree (del_path load n t stack)
    unfolding del_path
    del_path-IsCoherentTree t whole stack h =
        Ensures-bind CutStack IsCoherentTree (reset_pointers stack) _
          (reset_pointers-CutStack whole stack h) (del_after t)
