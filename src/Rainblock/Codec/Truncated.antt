-- ===== src/Rainblock/Codec/Truncated.antt =====
-- truncate of asb-authdb/rainblock-trie/src/trie_node_ext.rs leaves the encoding of a tree.
use extended_hypertrie_authe.Prelude.{
  List, [], ◌∷◌, ◌++◌, Option, some, Bool, true, false, ltb, ◌≡◌, refl, sym, ap, ap₂, length, inl,
  inr, Bool-cases,
}
use extended_hypertrie_authe.Serde.{Bytes}
use extended_hypertrie_authe.Merkle.Hashing.{HashLib}
use extended_hypertrie_authe.Rainblock.Node.{
  TrieNode, leaf, branch, extension, ChildRef, null, ref, owned, ext, ChildRefGroup, nil, cons,
  NodeCache,
}
use extended_hypertrie_authe.Rainblock.Rlp.{Rlp}
use extended_hypertrie_authe.Rainblock.Commits.{
  truncate_child, truncate_group, truncate, truncate_at,
}
use extended_hypertrie_authe.Rainblock.Codec.{
  mpt_path, inlined, encode, encode_child, encode_group, IsCoherent, IsCoherentRef, AreCoherent,
}
use extended_hypertrie_authe.Rainblock.Codec.Bare.{encode-bare_eq}
use extended_hypertrie_authe.Rainblock.Codec.Cached.{get_rlp_encode-Encodes}
use extended_hypertrie_authe.Rainblock.Codec.Fitting.{hash_with_lem, Fits-some}

module _ (lib : HashLib) (rlp : Rlp) where
  -- A child, and then a node, that keeps its encoding and has the right caches.
  abbrev pub KeepsChild : Option (ChildRef lib.H256) → ChildRef lib.H256 → Type 0
  KeepsChild result child =
      (new : ChildRef lib.H256) × (result ≡ some new)
      × (encode_child lib rlp new ≡ encode_child lib rlp child)
      × IsCoherentRef lib rlp new

  abbrev pub KeepsGroup : Option (ChildRefGroup lib.H256) → ChildRefGroup lib.H256 → Type 0
  KeepsGroup result children =
      (new : ChildRefGroup lib.H256) × (result ≡ some new)
      × (encode_group lib rlp new ≡ encode_group lib rlp children)
      × AreCoherent lib rlp new

  truncate_child-KeepsChild :
      (child : ChildRef lib.H256)
      → IsCoherentRef lib rlp child
      → KeepsChild (truncate_child lib rlp child) child
  unfolding truncate_child
  truncate_child-KeepsChild null h = (null, refl, refl, tt)
  truncate_child-KeepsChild (ref digest) h = (ref digest, refl, refl, tt)
  truncate_child-KeepsChild (owned (ext node cache)) h =
      let bytes = encode lib rlp node in
      let (new, cache', runs, same, coherent, cached, tag, hashed) =
        get_rlp_encode-Encodes lib rlp false node cache h.0 h.1 in
      let same_bytes = encode-bare_eq lib rlp new node same in
      let (c, hashes, kept, kept_tag, hashed') = hash_with_lem lib rlp new cache' bytes hashed in
      elim (Bool-cases (ltb (length bytes) 32)) [
        | inl e ↦ (
          owned (ext new cache'),
          rw runs (rw e refl),
          ap (inlined lib rlp) same_bytes,
          (
            coherent,
            Fits-some lib rlp false cache' bytes (encode lib rlp new) cached (sym same_bytes) tag
                hashed,
          ),
        )
        | inr e ↦ (ref (lib.keccak bytes), rw runs (rw (e, hashes) refl), rw (inlined, e) refl, tt)
      ]

  truncate_group-KeepsGroup :
      (children : ChildRefGroup lib.H256)
      → AreCoherent lib rlp children
      → KeepsGroup (truncate_group lib rlp children) children
  unfolding truncate_group
  truncate_group-KeepsGroup nil h = (nil, refl, refl, tt)
  truncate_group-KeepsGroup (cons c children) h =
      let (new, runs, same, coherent) = truncate_child-KeepsChild c h.0 in
      let (news, runs', same', coherent') = truncate_group-KeepsGroup children h.1 in
      (
        cons new news,
        rw runs (rw runs' refl),
        ap₂ (λ (x : Bytes) (xs : List Bytes). x ∷ xs) same same',
        (coherent, coherent'),
      )

  -- `truncate` returns, and leaves the encoding of the node and the right caches.
  pub truncate-encode :
      (node : TrieNode lib.H256)
      → IsCoherent lib rlp node
      → (new : TrieNode lib.H256) × (truncate lib rlp node ≡ some new)
        × (encode lib rlp new ≡ encode lib rlp node)
        × IsCoherent lib rlp new
  unfolding truncate
  truncate-encode (leaf key value) h = (leaf key value, refl, refl, tt)
  truncate-encode (branch children value) h =
      let (new, runs, same, coherent) = truncate_group-KeepsGroup children h in
      (
        branch new value,
        rw runs refl,
        ap (λ (parts : List Bytes). rlp.append_list (parts ++ (rlp.append value ∷ []))) same,
        coherent,
      )
  truncate-encode (extension key child) h =
      let (new, runs, same, coherent) = truncate_child-KeepsChild child h in
      (
        extension key new,
        rw runs refl,
        ap (λ (part : Bytes). rlp.append_list (rlp.append (mpt_path lib rlp key false) ∷ part ∷ []))
            same,
        coherent,
      )

  pub truncate_at-encode :
      (at_bottom : Bool) (node : TrieNode lib.H256) (cache : NodeCache lib.H256)
      → IsCoherent lib rlp node
      → (new : TrieNode lib.H256) × (truncate_at lib rlp at_bottom (ext node cache)
          ≡ some (ext new cache))
        × (encode lib rlp new ≡ encode lib rlp node)
        × IsCoherent lib rlp new
  unfolding truncate_at
  truncate_at-encode false node cache h = (node, refl, refl, h)
  truncate_at-encode true node cache h =
      let (new, runs, same, coherent) = truncate-encode node h in
      (new, rw runs refl, same, coherent)
