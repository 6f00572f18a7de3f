-- ===== src/Rainblock/Codec/Committed.antt =====
-- commit of asb-authdb/rainblock-trie/src/trie_node_ext.rs does not panic, writes bytes under their
-- hash, and leaves the encoding of a tree.
use extended_hypertrie_authe.Prelude.{
  ℕ, suc, List, [], ◌∷◌, ◌++◌, Option, none, some, Bool, true, false, not, ◌&&◌, ◌||◌, ◌==◌, leb,
  ◌≡◌, refl, sym, ap, ap₂, ◌∙◌, subst, arith, length, All, All-append, inl, inr, Bool-cases,
  if◌then◌else◌,
}
use extended_hypertrie_authe.Prelude.Options.{◌>>=◌}
use extended_hypertrie_authe.Serde.{Bytes}
use extended_hypertrie_authe.Merkle.Hashing.{HashLib}
use extended_hypertrie_authe.Rainblock.Node.{
  TrieNode, leaf, branch, extension, ChildRef, null, ref, owned, TrieNodeExt, ext, ChildRefGroup,
  nil, cons, NodeCache, Commit, committed, pending, light, working,
}
use extended_hypertrie_authe.Rainblock.Rlp.{Rlp}
use extended_hypertrie_authe.Rainblock.Commits.{
  is_clean, PutOps, commit_self, commit_node, commit_below, commit_child, commit_group, truncate_at,
}
use extended_hypertrie_authe.Rainblock.Codec.{
  mpt_path, inlined, encode, encode_child, encode_group, TagFits, Fits, IsCoherent, IsCoherentRef,
  AreCoherent,
}
use extended_hypertrie_authe.Rainblock.Codec.Bare.{encode-bare_eq}
use extended_hypertrie_authe.Rainblock.Codec.Cached.{get_rlp_encode-Encodes}
use extended_hypertrie_authe.Rainblock.Codec.Fitting.{hash_with_lem, Fits-some}
use extended_hypertrie_authe.Rainblock.Codec.Truncated.{truncate_at-encode}

module _ (lib : HashLib) (rlp : Rlp) where
  -- Every write is of bytes under their hash.
  abbrev pub AreHashed : PutOps lib rlp → Type 0
  AreHashed = All (λ (op : lib.H256 × Bytes). op.0 ≡ lib.keccak op.1)

  abbrev pub CommitsExt :
      Bool → Option (TrieNodeExt lib.H256 × PutOps lib rlp) → TrieNode lib.H256 → Type 0
  CommitsExt is_root result node =
      (new : TrieNode lib.H256) × (cache : NodeCache lib.H256) × (ops : PutOps lib rlp) × (result
        ≡ some (ext new cache, ops))
      × (encode lib rlp new ≡ encode lib rlp node)
      × IsCoherent lib rlp new
      × Fits lib rlp is_root cache.rlp_encode cache (encode lib rlp new)
      × AreHashed ops

  abbrev pub CommitsNode : Option (TrieNode lib.H256 × PutOps lib rlp) → TrieNode lib.H256 → Type 0
  CommitsNode result node =
      (new : TrieNode lib.H256) × (ops : PutOps lib rlp) × (result ≡ some (new, ops))
      × (encode lib rlp new ≡ encode lib rlp node)
      × IsCoherent lib rlp new
      × AreHashed ops

  abbrev pub CommitsChild : Option (ChildRef lib.H256 × PutOps lib rlp) → ChildRef lib.H256 → Type 0
  CommitsChild result child =
      (new : ChildRef lib.H256) × (ops : PutOps lib rlp) × (result ≡ some (new, ops))
      × (encode_child lib rlp new ≡ encode_child lib rlp child)
      × IsCoherentRef lib rlp new
      × AreHashed ops

  abbrev pub CommitsGroup :
      Option (ChildRefGroup lib.H256 × PutOps lib rlp) → ChildRefGroup lib.H256 → Type 0
  CommitsGroup result children =
      (new : ChildRefGroup lib.H256) × (ops : PutOps lib rlp) × (result ≡ some (new, ops))
      × (encode_group lib rlp new ≡ encode_group lib rlp children)
      × AreCoherent lib rlp new
      × AreHashed ops

  -- The mark of a short node that is not the root.
  light_tag :
      (tag : Commit) (bytes : Bytes)
      → TagFits lib rlp false tag bytes
      → leb 32 (length bytes) ≡ false
      → tag ≡ light
  light_tag working bytes fits e = absurd fits
  light_tag light bytes fits e = refl
  light_tag pending bytes fits e = absurd (ground (arith, fits, e))
  light_tag committed bytes fits e = absurd (ground (arith, fits, e))

  committed-TagFits :
      (depth : ℕ) (bytes : Bytes)
      → (leb 32 (length bytes) || depth == 0) ≡ true
      → TagFits lib rlp (depth == 0) committed bytes
  committed-TagFits depth bytes e = elim (Bool-cases (depth == 0)) [
    | inl root ↦ subst (λ (b : Bool). TagFits lib rlp b committed bytes) (sym root) tt
    | inr below ↦
        subst (λ (b : Bool). TagFits lib rlp b committed bytes) (sym below)
          (ground (arith, e, below))
  ]

  own-AreHashed :
      (put : Bool) (bytes : Bytes) → AreHashed (if put then (lib.keccak bytes, bytes) ∷ [] else [])
  own-AreHashed true bytes = (refl, tt)
  own-AreHashed false bytes = tt

  commit_self-CommitsExt :
      (n depth : ℕ) (top_layer : Bool) (node : TrieNode lib.H256) (cache : NodeCache lib.H256)
      → IsCoherent lib rlp node
      → Fits lib rlp (depth == 0) cache.rlp_encode cache (encode lib rlp node)
      → CommitsExt (depth == 0) (commit_self lib rlp n depth top_layer (ext node cache)) node
  unfolding commit_self
  commit_self-CommitsExt n depth top_layer node cache coherent fits =
      let bytes = encode lib rlp node in
      let is_root = depth == 0 in
      let (new, mid, runs, same, coherent', cached, tag, hashed) =
        get_rlp_encode-Encodes lib rlp is_root node cache coherent fits in
      let same_bytes = encode-bare_eq lib rlp new node same in
      elim (Bool-cases (leb 32 (length bytes) || is_root)) [
        | inl e ↦
            let (c, hashes, kept, kept_tag, hashed') = hash_with_lem lib rlp new mid bytes hashed in
            let ops : PutOps lib rlp =
              if leb n depth || top_layer then (lib.keccak bytes, bytes) ∷ [] else [] in
            (
              new,
              record c { commited = committed },
              ops,
              rw runs (rw e (rw hashes refl)),
              same_bytes,
              coherent',
              Fits-some lib rlp is_root (record c { commited = committed }) bytes
                  (encode lib rlp new) (kept ∙ cached) (sym same_bytes)
                  (committed-TagFits depth bytes e) hashed',
              own-AreHashed (leb n depth || top_layer) bytes,
            )
        | inr e ↦
            let below : is_root ≡ false = ground (arith, e) in
            let short : leb 32 (length bytes) ≡ false = ground (arith, e) in
            let here =
              light_tag mid.commited bytes
                (subst (λ (b : Bool). TagFits lib rlp b mid.commited bytes) below tag) short in
            (
              new,
              mid,
              [],
              rw runs (
                  rw e (
                    ap (λ (t : Commit). elim t [ light ↦ some (ext new mid, []) | _ ↦ none ])
                      here)),
              same_bytes,
              coherent',
              Fits-some lib rlp is_root mid bytes (encode lib rlp new) cached (sym same_bytes) tag
                  hashed,
              tt,
            )
      ]

  below_root : (depth : ℕ) → (suc depth == 0) ≡ false
  below_root depth = ground arith

  Fits-at :
      {a b : Bool}
      → a ≡ b
      → (node : TrieNode lib.H256) (cache : NodeCache lib.H256)
      → Fits lib rlp a cache.rlp_encode cache (encode lib rlp node)
      → Fits lib rlp b cache.rlp_encode cache (encode lib rlp node)
  Fits-at e node cache fits =
      subst (λ (r : Bool). Fits lib rlp r cache.rlp_encode cache (encode lib rlp node)) e fits

  -- `commit` of a node, after its children.
  after_below :
      (n depth : ℕ) (top_layer at_bottom : Bool) (node : TrieNode lib.H256)
      (cache : NodeCache lib.H256)
      → Fits lib rlp (depth == 0) cache.rlp_encode cache (encode lib rlp node)
      → (result : Option (TrieNode lib.H256 × PutOps lib rlp)) → CommitsNode result node
      → CommitsExt
          (depth == 0)
          (result >>= λ p. commit_self lib rlp n depth top_layer (ext p.0 cache) >>= λ q.
            truncate_at lib rlp at_bottom q.0 >>= λ me. some (me, p.1 ++ q.1))
          node
  after_below n depth top_layer at_bottom node cache fits result
        (new, ops, runs, same, coherent, hashed) =
      let fits' =
        subst (λ (b : Bytes). Fits lib rlp (depth == 0) cache.rlp_encode cache b) (sym same) fits in
      let (me, c, own, runs', same', coherent', fits_own, hashed') =
        commit_self-CommitsExt n depth top_layer new cache coherent fits' in
      let (last, runs_last, same_last, coherent_last) =
        truncate_at-encode lib rlp at_bottom me c coherent' in
      (
        last,
        c,
        ops ++ own,
        rw runs (rw runs' (rw runs_last refl)),
        same_last ∙ (same' ∙ same),
        coherent_last,
        subst (λ (b : Bytes). Fits lib rlp (depth == 0) c.rlp_encode c b) (sym same_last) fits_own,
        All-append (λ (op : lib.H256 × Bytes). op.0 ≡ lib.keccak op.1) ops own hashed hashed',
      )

  commit_ext-CommitsExt :
      (n depth : ℕ) (top_layer : Bool) (node : TrieNode lib.H256) (cache : NodeCache lib.H256)
      → IsCoherent lib rlp node
      → Fits lib rlp (depth == 0) cache.rlp_encode cache (encode lib rlp node)
      → CommitsNode (commit_below lib rlp n (suc depth) top_layer node) node
      → CommitsExt (depth == 0) (commit_node lib rlp n depth top_layer (ext node cache)) node
  unfolding commit_node
  commit_ext-CommitsExt n depth top_layer node cache coherent fits below =
      elim (Bool-cases (leb n depth && top_layer)) [
        | inl e ↦ (node, cache, [], rw e refl, refl, coherent, fits, tt)
        | inr e ↦ elim (Bool-cases (is_clean cache.commited && not top_layer)) [
          | inl clean ↦ (node, cache, [], rw e (rw clean refl), refl, coherent, fits, tt)
          | inr dirty ↦
              let (new, c, ops, runs, same, coherent', fits', hashed) =
                after_below n depth top_layer (suc depth == n && not top_layer) node cache fits
                  (commit_below lib rlp n (suc depth) top_layer node) below in
              (new, c, ops, rw e (rw dirty runs), same, coherent', fits', hashed)
        ]
      ]

  mutual
    unfolding commit_node

    commit_below-CommitsNode :
        (n depth : ℕ) (top_layer : Bool) (node : TrieNode lib.H256)
        → IsCoherent lib rlp node
        → CommitsNode (commit_below lib rlp n (suc depth) top_layer node) node
    commit_below-CommitsNode n depth top_layer (leaf key value) h =
        (leaf key value, [], refl, refl, tt, tt)
    commit_below-CommitsNode n depth top_layer (branch children value) h =
        let (new, ops, runs, same, coherent, hashed) =
          commit_group-CommitsGroup n depth top_layer children h in
        (
          branch new value,
          ops,
          rw runs refl,
          ap (λ (parts : List Bytes). rlp.append_list (parts ++ (rlp.append value ∷ []))) same,
          coherent,
          hashed,
        )
    commit_below-CommitsNode n depth top_layer (extension key child) h =
        let (new, ops, runs, same, coherent, hashed) =
          commit_child-CommitsChild n depth top_layer child h in
        (
          extension key new,
          ops,
          rw runs refl,
          ap
              (λ (part : Bytes).
                rlp.append_list (rlp.append (mpt_path lib rlp key false) ∷ part ∷ []))
              same,
          coherent,
          hashed,
        )

    commit_child-CommitsChild :
        (n depth : ℕ) (top_layer : Bool) (child : ChildRef lib.H256)
        → IsCoherentRef lib rlp child
        → CommitsChild (commit_child lib rlp n (suc depth) top_layer child) child
    commit_child-CommitsChild n depth top_layer null h = (null, [], refl, refl, tt, tt)
    commit_child-CommitsChild n depth top_layer (ref digest) h =
        (ref digest, [], refl, refl, tt, tt)
    commit_child-CommitsChild n depth top_layer (owned (ext node cache)) h =
        let (new, c, ops, runs, same, coherent, fits, hashed) =
          commit_ext-CommitsExt n (suc depth) top_layer node cache h.0
            (Fits-at (sym (below_root depth)) node cache h.1)
            (commit_below-CommitsNode n (suc depth) top_layer node h.0) in
        (
          owned (ext new c),
          ops,
          rw runs refl,
          ap (inlined lib rlp) same,
          (coherent, Fits-at (below_root depth) new c fits),
          hashed,
        )

    commit_group-CommitsGroup :
        (n depth : ℕ) (top_layer : Bool) (children : ChildRefGroup lib.H256)
        → AreCoherent lib rlp children
        → CommitsGroup (commit_group lib rlp n (suc depth) top_layer children) children
    commit_group-CommitsGroup n depth top_layer nil h = (nil, [], refl, refl, tt, tt)
    commit_group-CommitsGroup n depth top_layer (cons c children) h =
        let (new, ops, runs, same, coherent, hashed) =
          commit_child-CommitsChild n depth top_layer c h.0 in
        let (news, more, runs', same', coherent', hashed') =
          commit_group-CommitsGroup n depth top_layer children h.1 in
        (
          cons new news,
          ops ++ more,
          rw runs (rw runs' refl),
          ap₂ (λ (x : Bytes) (xs : List Bytes). x ∷ xs) same same',
          (coherent, coherent'),
          All-append (λ (op : lib.H256 × Bytes). op.0 ≡ lib.keccak op.1) ops more hashed hashed',
        )

  -- `commit` of a tree whose caches are right returns, in both of its modes: the encoding of the
  -- tree is the same, its caches are right, and every write is of bytes under their hash.
  pub commit_node-CommitsExt :
      (n : ℕ) (top_layer : Bool) (node : TrieNode lib.H256) (cache : NodeCache lib.H256)
      → IsCoherent lib rlp node
      → Fits lib rlp true cache.rlp_encode cache (encode lib rlp node)
      → CommitsExt true (commit_node lib rlp n 0 top_layer (ext node cache)) node
  commit_node-CommitsExt n top_layer node cache coherent fits =
      commit_ext-CommitsExt n 0 top_layer node cache coherent fits
        (commit_below-CommitsNode n 0 top_layer node coherent)
