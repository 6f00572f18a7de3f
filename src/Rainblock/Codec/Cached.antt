-- ===== src/Rainblock/Codec/Cached.antt =====
-- get_rlp_encode and hash of asb-authdb/rainblock-trie/src/trie_node_ext.rs, with their caches,
-- give the encoding of the tree and its hash.
use extended_hypertrie_authe.Prelude.{
  Option, some, Bool, true, false, ltb, ◌≡◌, refl, sym, ap, ap₂, ◌∙◌, subst, length, inl, inr,
  Bool-cases,
}
use extended_hypertrie_authe.Prelude.Options.{◌>>=◌}
use extended_hypertrie_authe.Serde.{Bytes}
use extended_hypertrie_authe.Merkle.Hashing.{HashLib}
use extended_hypertrie_authe.Rainblock.Node.{
  TrieNode, leaf, branch, extension, ChildRef, null, ref, owned, TrieNodeExt, ext, ChildRefGroup,
  nil, cons, NodeCache, Commit, fresh,
}
use extended_hypertrie_authe.Rainblock.Rlp.{
  Rlp, child_item, get_rlp_encode, rlp_bytes, rlp_child, rlp_group, hash,
}
use extended_hypertrie_authe.Rainblock.Codec.{
  encode, TagFits, Fits, IsCoherent, IsCoherentRef, AreCoherent,
}
use extended_hypertrie_authe.Rainblock.Codec.Bare.{bare, encode-bare_eq}
use extended_hypertrie_authe.Rainblock.Codec.Fitting.{
  Encodes, EncodesNode, EncodesChild, EncodesGroup, mpt_path-to_mpt_key, hash_with_lem, cache_cases,
  Fits-some,
}

module _ (lib : HashLib) (rlp : Rlp) where
  -- A child in the encoding of its parent.
  child_item_lem :
      (result : Option (Bytes × TrieNodeExt lib.H256)) (node : TrieNode lib.H256)
      (old : NodeCache lib.H256)
      → Encodes lib rlp false result node
      → EncodesChild lib rlp
          (result >>= λ p. some (child_item lib rlp p.0 p.1))
          (owned (ext node old))
  child_item_lem result node old (new, cache, runs, same, coherent, cached, tag, hashed) =
      let bytes = encode lib rlp node in
      let same_bytes = encode-bare_eq lib rlp new node same in
      let (cache', hashes, kept, kept_tag, hashed') =
        hash_with_lem lib rlp new cache bytes hashed in
      elim (Bool-cases (ltb (length bytes) 32)) [
        | inl e ↦ (
          owned (ext new cache),
          rw runs (rw (hashes, e) refl),
          ap (λ (x : TrieNode lib.H256). owned (ext x fresh)) same,
          (
            coherent,
            (Fits-some lib rlp) false cache bytes (encode lib rlp new) cached (sym same_bytes) tag
                hashed,
          ),
        )
        | inr e ↦ (
          owned (ext new cache'),
          rw runs (rw (hashes, e) refl),
          ap (λ (x : TrieNode lib.H256). owned (ext x fresh)) same,
          (
            coherent,
            (Fits-some lib rlp) false cache' bytes (encode lib rlp new) (kept ∙ cached)
                (sym same_bytes)
                (subst (λ (t : Commit). TagFits lib rlp false t bytes) (sym kept_tag) tag) hashed',
          ),
        )
      ]

  mutual
    unfolding get_rlp_encode

    rlp_bytes_lem :
        (node : TrieNode lib.H256)
        → IsCoherent lib rlp node
        → EncodesNode lib rlp (rlp_bytes lib rlp node) node
    rlp_bytes_lem (leaf key value) h =
        (leaf key value, rw (mpt_path-to_mpt_key lib rlp key true) refl, refl, tt)
    rlp_bytes_lem (branch children value) h =
        let (new, runs, same, coherent) = rlp_group_lem children h in
        (
          branch new value,
          rw runs refl,
          ap (λ (x : ChildRefGroup lib.H256). branch x value) same,
          coherent,
        )
    rlp_bytes_lem (extension key child) h =
        let (new, runs, same, coherent) = rlp_child_lem child h in
        (
          extension key new,
          rw (mpt_path-to_mpt_key lib rlp key false) (rw runs refl),
          ap (λ (x : ChildRef lib.H256). extension key x) same,
          coherent,
        )

    rlp_child_lem :
        (child : ChildRef lib.H256)
        → IsCoherentRef lib rlp child
        → EncodesChild lib rlp (rlp_child lib rlp child) child
    rlp_child_lem null h = (null, refl, refl, tt)
    rlp_child_lem (ref digest) h = (ref digest, refl, refl, tt)
    rlp_child_lem (owned (ext node cache)) h =
        child_item_lem (get_rlp_encode lib rlp (ext node cache)) node cache
          (cache_cases lib rlp false node cache h.0 h.1 (rlp_bytes_lem node h.0))

    rlp_group_lem :
        (children : ChildRefGroup lib.H256)
        → AreCoherent lib rlp children
        → EncodesGroup lib rlp (rlp_group lib rlp children) children
    rlp_group_lem nil h = (nil, refl, refl, tt)
    rlp_group_lem (cons c children) h =
        let (new, runs, same, coherent) = rlp_child_lem c h.0 in
        let (news, runs', same', coherent') = rlp_group_lem children h.1 in
        (
          cons new news,
          rw runs (rw runs' refl),
          ap₂ (λ (x : ChildRef lib.H256) (xs : ChildRefGroup lib.H256). cons x xs) same same',
          (coherent, coherent'),
        )

  -- The bytes that `get_rlp_encode` returns are the encoding of the tree, whatever is cached, if the
  -- caches are right; they stay right, and nothing but the caches changes.
  pub get_rlp_encode-Encodes :
      (is_root : Bool) (node : TrieNode lib.H256) (cache : NodeCache lib.H256)
      → IsCoherent lib rlp node
      → Fits lib rlp is_root cache.rlp_encode cache (encode lib rlp node)
      → Encodes lib rlp is_root (get_rlp_encode lib rlp (ext node cache)) node
  get_rlp_encode-Encodes is_root node cache coherent fits =
      (cache_cases lib rlp) is_root node cache coherent fits (rlp_bytes_lem node coherent)

  -- `hash` returns the hash of the encoding of the tree, if the caches are right; they stay right,
  -- and nothing but the caches changes.
  pub hash-encode :
      (is_root : Bool) (node : TrieNode lib.H256) (cache : NodeCache lib.H256)
      → IsCoherent lib rlp node
      → Fits lib rlp is_root cache.rlp_encode cache (encode lib rlp node)
      → (new : TrieNode lib.H256) × (cache' : NodeCache lib.H256) × (hash lib rlp (ext node cache)
          ≡ some (lib.keccak (encode lib rlp node), ext new cache'))
        × (bare new ≡ bare node)
        × IsCoherent lib rlp new
        × Fits lib rlp is_root cache'.rlp_encode cache' (encode lib rlp new)
  unfolding hash
  hash-encode is_root node cache coherent fits =
      let bytes = encode lib rlp node in
      let (new, mid, runs, same, coherent', cached, tag, hashed) =
        get_rlp_encode-Encodes is_root node cache coherent fits in
      let (cache', hashes, kept, kept_tag, hashed') = hash_with_lem lib rlp new mid bytes hashed in
      (
        new,
        cache',
        rw runs (ap some hashes),
        same,
        coherent',
        (Fits-some lib rlp) is_root cache' bytes (encode lib rlp new) (kept ∙ cached)
            (sym (encode-bare_eq lib rlp new node same))
            (subst (λ (t : Commit). TagFits lib rlp is_root t bytes) (sym kept_tag) tag) hashed',
      )
