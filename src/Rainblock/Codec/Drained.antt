-- ===== src/Rainblock/Codec/Drained.antt =====
-- The loops of commit in asb-authdb/rainblock-trie/src/rain_mpt.rs over exile_nodes and
-- loaded_node leave the encoding of a tree.
use extended_hypertrie_authe.Prelude.{
  ℕ, zero, suc, List, [], ◌∷◌, ◌++◌, Option, some, Bool, true, false, ◌≡◌, refl, sym, ap, ap₂, ◌∙◌,
  subst, All-append,
}
use extended_hypertrie_authe.Serde.{Bytes}
use extended_hypertrie_authe.Merkle.Hashing.{HashLib}
use extended_hypertrie_authe.Rainblock.Node.{
  TrieNode, leaf, branch, extension, ChildRef, null, ref, owned, TrieNodeExt, ext, ChildRefGroup,
  nil, cons, NodeCache,
}
use extended_hypertrie_authe.Rainblock.Rlp.{Rlp}
use extended_hypertrie_authe.Rainblock.Database.{
  repeat, put_times, drain_exiled, exiled_below, exiled_child, exiled_group, drain_loaded,
  loaded_below, loaded_child, loaded_group,
}
use extended_hypertrie_authe.Rainblock.Codec.{
  mpt_path, inlined, encode, Fits, IsCoherent, IsCoherentRef, AreCoherent,
}
use extended_hypertrie_authe.Rainblock.Codec.Bare.{encode-bare_eq}
use extended_hypertrie_authe.Rainblock.Codec.Cached.{get_rlp_encode-Encodes, hash-encode}
use extended_hypertrie_authe.Rainblock.Codec.Fitting.{Fits-some, Fits-marks}
use extended_hypertrie_authe.Rainblock.Codec.Truncated.{KeepsChild, KeepsGroup, truncate_at-encode}
use extended_hypertrie_authe.Rainblock.Codec.Committed.{
  AreHashed, CommitsExt, CommitsNode, CommitsChild, CommitsGroup,
}

module _ (lib : HashLib) (rlp : Rlp) where
  repeat-AreHashed :
      (count : ℕ) (digest : lib.H256) (bytes : Bytes)
      → digest ≡ lib.keccak bytes
      → AreHashed lib rlp (repeat lib rlp count (digest, bytes))
  repeat-AreHashed zero digest bytes e = tt
  repeat-AreHashed (suc count) digest bytes e = (e, repeat-AreHashed count digest bytes e)

  put_times-CommitsExt :
      (count : ℕ) (is_root : Bool) (node : TrieNode lib.H256) (cache : NodeCache lib.H256)
      → IsCoherent lib rlp node
      → Fits lib rlp is_root cache.rlp_encode cache (encode lib rlp node)
      → CommitsExt lib rlp is_root (put_times lib rlp count (ext node cache)) node
  unfolding put_times
  put_times-CommitsExt zero is_root node cache coherent fits =
      (node, cache, [], refl, refl, coherent, fits, tt)
  put_times-CommitsExt (suc count) is_root node cache coherent fits =
      let (new, c, hashes, same, coherent', fits') =
        hash-encode lib rlp is_root node cache coherent fits in
      let (last, c', runs, same', coherent_last, cached, tag, hashed) =
        get_rlp_encode-Encodes lib rlp is_root new c coherent' fits' in
      let first = encode-bare_eq lib rlp new node same in
      let second = encode-bare_eq lib rlp last new same' in
      (
        last,
        c',
        repeat lib rlp (suc count) (lib.keccak (encode lib rlp node), encode lib rlp new),
        rw hashes (rw runs refl),
        second ∙ first,
        coherent_last,
        Fits-some lib rlp is_root c' (encode lib rlp new) (encode lib rlp last) cached (sym second)
            tag hashed,
        repeat-AreHashed (suc count) (lib.keccak (encode lib rlp node)) (encode lib rlp new)
            (ap lib.keccak (sym first)),
      )

  exiled_ext-CommitsExt :
      (is_root : Bool) (node : TrieNode lib.H256) (cache : NodeCache lib.H256)
      → Fits lib rlp is_root cache.rlp_encode cache (encode lib rlp node)
      → CommitsNode lib rlp (exiled_below lib rlp node) node
      → CommitsExt lib rlp is_root (drain_exiled lib rlp (ext node cache)) node
  unfolding drain_exiled
  exiled_ext-CommitsExt is_root node cache fits (new, ops, runs, same, coherent, hashed) =
      let fits' =
        subst (λ (b : Bytes). Fits lib rlp is_root cache.rlp_encode cache b) (sym same) fits in
      let (me, c, own, runs', same', coherent', fits_own, hashed') =
        put_times-CommitsExt cache.exiled is_root new (record cache { exiled = 0 }) coherent
          (Fits-marks lib rlp is_root cache.rlp_encode cache (encode lib rlp new) 0 cache.loaded
            fits') in
      (
        me,
        c,
        ops ++ own,
        rw runs (rw runs' refl),
        same' ∙ same,
        coherent',
        fits_own,
        All-append (λ (op : lib.H256 × Bytes). op.0 ≡ lib.keccak op.1) ops own hashed hashed',
      )

  mutual
    unfolding drain_exiled

    exiled_below-CommitsNode :
        (node : TrieNode lib.H256)
        → IsCoherent lib rlp node
        → CommitsNode lib rlp (exiled_below lib rlp node) node
    exiled_below-CommitsNode (leaf key value) h = (leaf key value, [], refl, refl, tt, tt)
    exiled_below-CommitsNode (branch children value) h =
        let (new, ops, runs, same, coherent, hashed) = exiled_group-CommitsGroup children h in
        (
          branch new value,
          ops,
          rw runs refl,
          ap (λ (parts : List Bytes). rlp.append_list (parts ++ (rlp.append value ∷ []))) same,
          coherent,
          hashed,
        )
    exiled_below-CommitsNode (extension key child) h =
        let (new, ops, runs, same, coherent, hashed) = exiled_child-CommitsChild child h in
        (
          extension key new,
          ops,
          rw runs refl,
          ap
              (λ (part : Bytes).
                rlp.append_list (rlp.append (mpt_path lib rlp key false) ∷ part ∷ []))
              same,
          coherent,
          hashed,
        )

    exiled_child-CommitsChild :
        (child : ChildRef lib.H256)
        → IsCoherentRef lib rlp child
        → CommitsChild lib rlp (exiled_child lib rlp child) child
    exiled_child-CommitsChild null h = (null, [], refl, refl, tt, tt)
    exiled_child-CommitsChild (ref digest) h = (ref digest, [], refl, refl, tt, tt)
    exiled_child-CommitsChild (owned (ext node cache)) h =
        let (new, c, ops, runs, same, coherent, fits, hashed) =
          exiled_ext-CommitsExt false node cache h.1 (exiled_below-CommitsNode node h.0) in
        (owned (ext new c), ops, rw runs refl, ap (inlined lib rlp) same, (coherent, fits), hashed)

    exiled_group-CommitsGroup :
        (children : ChildRefGroup lib.H256)
        → AreCoherent lib rlp children
        → CommitsGroup lib rlp (exiled_group lib rlp children) children
    exiled_group-CommitsGroup nil h = (nil, [], refl, refl, tt, tt)
    exiled_group-CommitsGroup (cons c children) h =
        let (new, ops, runs, same, coherent, hashed) = exiled_child-CommitsChild c h.0 in
        let (news, more, runs', same', coherent', hashed') =
          exiled_group-CommitsGroup children h.1 in
        (
          cons new news,
          ops ++ more,
          rw runs (rw runs' refl),
          ap₂ (λ (x : Bytes) (xs : List Bytes). x ∷ xs) same same',
          (coherent, coherent'),
          All-append (λ (op : lib.H256 × Bytes). op.0 ≡ lib.keccak op.1) ops more hashed hashed',
        )

  -- The loop over `exile_nodes` returns, leaves the encoding of the tree and the right caches, and
  -- every write is of bytes under their hash.
  pub drain_exiled-CommitsExt :
      (node : TrieNode lib.H256) (cache : NodeCache lib.H256)
      → IsCoherent lib rlp node
      → Fits lib rlp true cache.rlp_encode cache (encode lib rlp node)
      → CommitsExt lib rlp true (drain_exiled lib rlp (ext node cache)) node
  drain_exiled-CommitsExt node cache coherent fits =
      exiled_ext-CommitsExt true node cache fits (exiled_below-CommitsNode node coherent)

  abbrev pub KeepsExt : Bool → Option (TrieNodeExt lib.H256) → TrieNode lib.H256 → Type 0
  KeepsExt is_root result node =
      (new : TrieNode lib.H256) × (cache : NodeCache lib.H256) × (result ≡ some (ext new cache))
      × (encode lib rlp new ≡ encode lib rlp node)
      × IsCoherent lib rlp new
      × Fits lib rlp is_root cache.rlp_encode cache (encode lib rlp new)

  abbrev KeepsNode : Option (TrieNode lib.H256) → TrieNode lib.H256 → Type 0
  KeepsNode result node =
      (new : TrieNode lib.H256) × (result ≡ some new)
      × (encode lib rlp new ≡ encode lib rlp node)
      × IsCoherent lib rlp new

  loaded_ext-KeepsExt :
      (is_root : Bool) (node : TrieNode lib.H256) (cache : NodeCache lib.H256)
      → Fits lib rlp is_root cache.rlp_encode cache (encode lib rlp node)
      → KeepsNode (loaded_below lib rlp node) node
      → KeepsExt is_root (drain_loaded lib rlp (ext node cache)) node
  unfolding drain_loaded
  loaded_ext-KeepsExt is_root node cache fits (mid, runs, same, coherent) =
      let unmarked = record cache { loaded = false } in
      let (new, runs', same', coherent') =
        truncate_at-encode lib rlp cache.loaded mid unmarked coherent in
      (
        new,
        unmarked,
        rw runs runs',
        same' ∙ same,
        coherent',
        Fits-marks lib rlp is_root cache.rlp_encode cache (encode lib rlp new) cache.exiled false (
            subst (λ (b : Bytes). Fits lib rlp is_root cache.rlp_encode cache b)
              (sym (same' ∙ same)) fits),
      )

  mutual
    unfolding drain_loaded

    loaded_below-KeepsNode :
        (node : TrieNode lib.H256)
        → IsCoherent lib rlp node
        → KeepsNode (loaded_below lib rlp node) node
    loaded_below-KeepsNode (leaf key value) h = (leaf key value, refl, refl, tt)
    loaded_below-KeepsNode (branch children value) h =
        let (new, runs, same, coherent) = loaded_group-KeepsGroup children h in
        (
          branch new value,
          rw runs refl,
          ap (λ (parts : List Bytes). rlp.append_list (parts ++ (rlp.append value ∷ []))) same,
          coherent,
        )
    loaded_below-KeepsNode (extension key child) h =
        let (new, runs, same, coherent) = loaded_child-KeepsChild child h in
        (
          extension key new,
          rw runs refl,
          ap
              (λ (part : Bytes).
                rlp.append_list (rlp.append (mpt_path lib rlp key false) ∷ part ∷ []))
              same,
          coherent,
        )

    loaded_child-KeepsChild :
        (child : ChildRef lib.H256)
        → IsCoherentRef lib rlp child
        → KeepsChild lib rlp (loaded_child lib rlp child) child
    loaded_child-KeepsChild null h = (null, refl, refl, tt)
    loaded_child-KeepsChild (ref digest) h = (ref digest, refl, refl, tt)
    loaded_child-KeepsChild (owned (ext node cache)) h =
        let (new, c, runs, same, coherent, fits) =
          loaded_ext-KeepsExt false node cache h.1 (loaded_below-KeepsNode node h.0) in
        (owned (ext new c), rw runs refl, ap (inlined lib rlp) same, (coherent, fits))

    loaded_group-KeepsGroup :
        (children : ChildRefGroup lib.H256)
        → AreCoherent lib rlp children
        → KeepsGroup lib rlp (loaded_group lib rlp children) children
    loaded_group-KeepsGroup nil h = (nil, refl, refl, tt)
    loaded_group-KeepsGroup (cons c children) h =
        let (new, runs, same, coherent) = loaded_child-KeepsChild c h.0 in
        let (news, runs', same', coherent') = loaded_group-KeepsGroup children h.1 in
        (
          cons new news,
          rw runs (rw runs' refl),
          ap₂ (λ (x : Bytes) (xs : List Bytes). x ∷ xs) same same',
          (coherent, coherent'),
        )

  -- The loop over `loaded_node` returns, and leaves the encoding of the tree and the right caches.
  pub drain_loaded-KeepsExt :
      (node : TrieNode lib.H256) (cache : NodeCache lib.H256)
      → IsCoherent lib rlp node
      → Fits lib rlp true cache.rlp_encode cache (encode lib rlp node)
      → KeepsExt true (drain_loaded lib rlp (ext node cache)) node
  drain_loaded-KeepsExt node cache coherent fits =
      loaded_ext-KeepsExt true node cache fits (loaded_below-KeepsNode node coherent)
