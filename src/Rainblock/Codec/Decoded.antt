-- ===== src/Rainblock/Codec/Decoded.antt =====
-- The decoders of asb-authdb/rainblock-trie/src (trie_node.rs, child_ref.rs) read back what the
-- encoders write.
use extended_hypertrie_authe.Prelude.{
  ℕ, zero, suc, ◌+◌, ◌*◌, ◌<◌, ◌≤◌, List, [], ◌∷◌, some, false, ltb, ltb→lt, ◌≡◌, refl, sym, ap,
  ap₂, ◌∙◌, subst, arith, length, All, All-append_left, inl, inr, Bool-cases,
}
use extended_hypertrie_authe.Serde.{Bytes}
use extended_hypertrie_authe.Merkle.Hashing.{HashLib}
use extended_hypertrie_authe.Rainblock.Node.{
  TrieNode, leaf, branch, extension, ChildRef, null, ref, owned, ext, ChildRefGroup, nil, cons,
  group_length, committed,
}
use extended_hypertrie_authe.Rainblock.Rlp.{Rlp}
use extended_hypertrie_authe.Rainblock.Load.{decode_node, decode_child, decode_group}
use extended_hypertrie_authe.Rainblock.Commits.{from_loaded}
use extended_hypertrie_authe.Rainblock.Codec.{
  inlined, encode, encode_child, encode_group, IsCoherent, IsCoherentRef, AreCoherent,
}
use extended_hypertrie_authe.Rainblock.Codec.Sound.{encode-branch, encode-extension}
use extended_hypertrie_authe.Rainblock.Codec.Shown.{
  IsShaped, IsShapedRef, AreShaped, light_cache, shown, shown_child, shown_group, parts_of-shorter,
}
use extended_hypertrie_authe.Rainblock.Codec.Reads.{
  decode_ref, decode_owned, node_fuel, same_size, read_leaf, read_extension, read_branch,
}

module _ (lib : HashLib) (rlp : Rlp) where
  mutual
    unfolding decode_node

    decode_node_lem :
        (node : TrieNode lib.H256) (fuel : ℕ)
        → IsShaped lib rlp node
        → node_fuel lib rlp (length (encode lib rlp node)) ≤ fuel
        → decode_node lib rlp fuel (encode lib rlp node) ≡ some (shown lib rlp node)
    decode_node_lem node zero h enough = absurd (omega (arith, enough))
    decode_node_lem (leaf key value) (suc fuel) h enough = read_leaf lib rlp fuel key value h
    decode_node_lem (extension key child) (suc fuel) h enough =
        let short = (parts_of-shorter lib rlp (extension key child)).1.0 in
        (read_extension lib rlp) fuel key child h.0
          (decode_child_lem child fuel h.1 (omega (arith, enough, short)))
    decode_node_lem (branch children value) (suc fuel) h enough =
        let whole = branch children value in
        let shorter =
          All-append_left (λ (x : Bytes). length x < length (encode lib rlp whole))
            (encode_group lib rlp children) (rlp.append value ∷ [])
            (parts_of-shorter lib rlp whole) in
        (read_branch lib rlp) fuel children value h.0 (
          decode_group_lem children fuel (length (encode lib rlp whole)) h.1
            (omega (arith, enough, h.0)) shorter)

    decode_child_lem :
        (child : ChildRef lib.H256) (fuel : ℕ)
        → IsShapedRef lib rlp child
        → node_fuel lib rlp (length (encode_child lib rlp child)) < fuel
        → decode_child lib rlp fuel (encode_child lib rlp child) ≡ some (shown_child lib rlp child)
    decode_child_lem child zero h enough = absurd (omega (arith, enough))
    decode_child_lem null (suc fuel) h enough = rw (rlp.view-append []) refl
    decode_child_lem (ref digest) (suc fuel) h enough = decode_ref lib rlp fuel digest
    decode_child_lem (owned (ext node cache)) (suc fuel) h enough =
        (decode_owned lib rlp) fuel node cache h λ e.
          decode_node_lem node fuel h
            (omega (arith, enough, same_size lib rlp (encode lib rlp node) e))

    decode_group_lem :
        (children : ChildRefGroup lib.H256) (fuel size : ℕ)
        → AreShaped lib rlp children
        → 20 * size + 2 + group_length children ≤ fuel
        → All (λ (x : Bytes). length x < size) (encode_group lib rlp children)
        → decode_group lib rlp fuel (encode_group lib rlp children)
          ≡ some (shown_group lib rlp children)
    decode_group_lem children zero size h enough short = absurd (omega (arith, enough))
    decode_group_lem nil (suc fuel) size h enough short = refl
    decode_group_lem (cons c children) (suc fuel) size h enough short =
        let one = decode_child_lem c fuel h.0 (omega (arith, enough, short.0)) in
        let rest = decode_group_lem children fuel size h.1 (omega (arith, enough)) short.1 in
        rw one (rw rest refl)

  mutual
    encode-shown :
        (node : TrieNode lib.H256) → encode lib rlp (shown lib rlp node) ≡ encode lib rlp node
    encode-shown (leaf key value) = refl
    encode-shown (branch children value) =
        encode-branch lib rlp (shown_group lib rlp children) children value
          (encode_group-shown children)
    encode-shown (extension key child) =
        encode-extension lib rlp key (shown_child lib rlp child) child (encode_child-shown child)

    encode_child-shown :
        (child : ChildRef lib.H256)
        → encode_child lib rlp (shown_child lib rlp child) ≡ encode_child lib rlp child
    encode_child-shown null = refl
    encode_child-shown (ref digest) = refl
    encode_child-shown (owned (ext node cache)) =
        elim (Bool-cases (ltb (length (encode lib rlp node)) 32)) [
          | inl e ↦
              let after : (shown_child lib rlp) (owned (ext node cache))
                  ≡ owned (ext (shown lib rlp node) (light_cache lib rlp (encode lib rlp node))) =
                rw e refl in
              ap (encode_child lib rlp) after ∙ ap (inlined lib rlp) (encode-shown node)
          | inr e ↦
              let after : (shown_child lib rlp) (owned (ext node cache))
                  ≡ ref (lib.keccak (encode lib rlp node)) =
                rw e refl in
              ap (encode_child lib rlp) after ∙ sym (rw (inlined, e) refl)
        ]

    encode_group-shown :
        (children : ChildRefGroup lib.H256)
        → encode_group lib rlp (shown_group lib rlp children) ≡ encode_group lib rlp children
    encode_group-shown nil = refl
    encode_group-shown (cons c children) =
        ap₂ (λ (x : Bytes) (xs : List Bytes). x ∷ xs) (encode_child-shown c)
          (encode_group-shown children)

  mutual
    shown-IsCoherent : (node : TrieNode lib.H256) → IsCoherent lib rlp (shown lib rlp node)
    shown-IsCoherent (leaf key value) = tt
    shown-IsCoherent (branch children value) = shown-AreCoherent children
    shown-IsCoherent (extension key child) = shown-IsCoherentRef child

    shown-IsCoherentRef :
        (child : ChildRef lib.H256) → IsCoherentRef lib rlp (shown_child lib rlp child)
    shown-IsCoherentRef null = tt
    shown-IsCoherentRef (ref digest) = tt
    shown-IsCoherentRef (owned (ext node cache)) =
        elim (Bool-cases (ltb (length (encode lib rlp node)) 32)) [
          | inl e ↦
              let after : (shown_child lib rlp) (owned (ext node cache))
                  ≡ owned (ext (shown lib rlp node) (light_cache lib rlp (encode lib rlp node))) =
                rw e refl in
              let same = encode-shown node in
              subst (IsCoherentRef lib rlp) (sym after) (
                shown-IsCoherent node,
                (
                  sym same,
                  subst (λ (b : Bytes). length b < 32) (sym same)
                      (ltb→lt (length (encode lib rlp node)) 32 e),
                  tt,
                ),
              )
          | inr e ↦
              let after : (shown_child lib rlp) (owned (ext node cache))
                  ≡ ref (lib.keccak (encode lib rlp node)) =
                rw e refl in
              subst (IsCoherentRef lib rlp) (sym after) tt
        ]

    shown-AreCoherent :
        (children : ChildRefGroup lib.H256) → AreCoherent lib rlp (shown_group lib rlp children)
    shown-AreCoherent nil = tt
    shown-AreCoherent (cons c children) = (shown-IsCoherentRef c, shown-AreCoherent children)

  -- What `load` makes of the encoding of a node, with nibbles for keys and 16 children in every
  -- branch: the node with the same keys and values, where a child with a long encoding is its
  -- digest; it has the same encoding, and its caches are right.
  pub from_loaded-encode :
      (digest : lib.H256) (node : TrieNode lib.H256)
      → IsShaped lib rlp node
      → (from_loaded lib rlp digest (encode lib rlp node)
          ≡ some (
              ext (shown lib rlp node) (record {
                hash = some digest;
                rlp_encode = some (encode lib rlp node);
                commited = committed;
                exiled = 0;
                loaded = false;
              })))
        × (encode lib rlp (shown lib rlp node) ≡ encode lib rlp node)
        × IsCoherent lib rlp (shown lib rlp node)
  unfolding from_loaded
  from_loaded-encode digest node h =
      let bytes = encode lib rlp node in
      (
        rw (decode_node_lem node (node_fuel lib rlp (length bytes)) h (omega arith)) refl,
        encode-shown node,
        shown-IsCoherent node,
      )
