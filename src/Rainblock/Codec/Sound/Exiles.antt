-- ===== src/Rainblock/Codec/Sound/Exiles.antt =====
-- The marks of exile in asb-authdb/rainblock-trie/src are no part of an encoding.
use Prim.Native.Nat.{compare, Ordering}
use Prim.Native.Nat.Ordering.{lt, eq, gt}
use extended_hypertrie_authe.Prelude.{ℕ, suc, ◌+◌, List, ◌∷◌, false, ◌≡◌, refl, sym, ap, ap₂, subst}
use extended_hypertrie_authe.Serde.{Bytes}
use extended_hypertrie_authe.Merkle.Hashing.{HashLib}
use extended_hypertrie_authe.Rainblock.Node.{
  TrieNode, leaf, branch, extension, ChildRef, null, ref, owned, ext, ChildRefGroup, nil, cons,
  NodeCache, seal, exile_at, exile_below, exile, exile_group,
}
use extended_hypertrie_authe.Rainblock.Rlp.{Rlp}
use extended_hypertrie_authe.Rainblock.Codec.{
  encode, encode_child, encode_group, inlined, Fits, IsCoherent, IsCoherentRef, IsCoherentExt,
  AreCoherent,
}
use extended_hypertrie_authe.Rainblock.Codec.Fitting.{Fits-marks}
use extended_hypertrie_authe.Rainblock.Codec.Sound.{encode-branch, encode-extension}

module _ (lib : HashLib) (rlp : Rlp) where
  pub sealed :
      (node : TrieNode lib.H256) → IsCoherent lib rlp node → IsCoherentExt lib rlp (seal node)
  sealed node h = (h, (refl, refl))

  -- A mark is no part of an encoding.
  pub exiled :
      (n depth : ℕ) (node below : TrieNode lib.H256) (cache : NodeCache lib.H256)
      → IsCoherentExt lib rlp (ext node cache)
      → IsCoherent lib rlp below
      → encode lib rlp below ≡ encode lib rlp node
      → (o : Ordering) → IsCoherentExt lib rlp (exile_at o node cache below)
  exiled n depth node below cache h k same gt = h
  exiled n depth node below cache h k same eq = (
    h.0,
    Fits-marks lib rlp false cache.rlp_encode cache (encode lib rlp node) (cache.exiled + 1)
        cache.loaded h.1,
  )
  exiled n depth node below cache h k same lt =
      (k, subst (λ (b : Bytes). Fits lib rlp false cache.rlp_encode cache b) (sym same) h.1)

  pub exiled_bytes :
      (node below : TrieNode lib.H256) (cache : NodeCache lib.H256)
      → encode lib rlp below ≡ encode lib rlp node
      → (o : Ordering)
      → encode_child lib rlp (owned (exile_at o node cache below))
        ≡ inlined lib rlp (encode lib rlp node)
  exiled_bytes node below cache same gt = refl
  exiled_bytes node below cache same eq = refl
  exiled_bytes node below cache same lt = ap (inlined lib rlp) same

  mutual
    unfolding exile

    pub encode-exile_below :
        (n depth : ℕ) (node : TrieNode lib.H256)
        → encode lib rlp (exile_below n depth node) ≡ encode lib rlp node
    encode-exile_below n depth (leaf key value) = refl
    encode-exile_below n depth (branch children value) =
        encode-branch lib rlp (exile_group n depth children) children value
          (encode_group-exile_group n depth children)
    encode-exile_below n depth (extension key child) =
        encode-extension lib rlp key (exile n depth child) child (encode_child-exile n depth child)

    pub encode_child-exile :
        (n depth : ℕ) (child : ChildRef lib.H256)
        → encode_child lib rlp (exile n depth child) ≡ encode_child lib rlp child
    encode_child-exile n depth null = refl
    encode_child-exile n depth (ref digest) = refl
    encode_child-exile n depth (owned (ext node cache)) =
        exiled_bytes node (exile_below n (suc depth) node) cache
          (encode-exile_below n (suc depth) node) (compare depth n)

    pub encode_group-exile_group :
        (n depth : ℕ) (children : ChildRefGroup lib.H256)
        → encode_group lib rlp (exile_group n depth children) ≡ encode_group lib rlp children
    encode_group-exile_group n depth nil = refl
    encode_group-exile_group n depth (cons c children) =
        ap₂ (λ (x : Bytes) (xs : List Bytes). x ∷ xs) (encode_child-exile n depth c)
          (encode_group-exile_group n depth children)

  mutual
    unfolding exile

    pub IsCoherent-exile_below :
        (n depth : ℕ) (node : TrieNode lib.H256)
        → IsCoherent lib rlp node
        → IsCoherent lib rlp (exile_below n depth node)
    IsCoherent-exile_below n depth (leaf key value) h = tt
    IsCoherent-exile_below n depth (branch children value) h =
        AreCoherent-exile_group n depth children h
    IsCoherent-exile_below n depth (extension key child) h = IsCoherentRef-exile n depth child h

    pub IsCoherentRef-exile :
        (n depth : ℕ) (child : ChildRef lib.H256)
        → IsCoherentRef lib rlp child
        → IsCoherentRef lib rlp (exile n depth child)
    IsCoherentRef-exile n depth null h = tt
    IsCoherentRef-exile n depth (ref digest) h = tt
    IsCoherentRef-exile n depth (owned (ext node cache)) h =
        exiled n depth node (exile_below n (suc depth) node) cache h
          (IsCoherent-exile_below n (suc depth) node h.0) (encode-exile_below n (suc depth) node)
          (compare depth n)

    pub AreCoherent-exile_group :
        (n depth : ℕ) (children : ChildRefGroup lib.H256)
        → AreCoherent lib rlp children
        → AreCoherent lib rlp (exile_group n depth children)
    AreCoherent-exile_group n depth nil h = tt
    AreCoherent-exile_group n depth (cons c children) h =
        (IsCoherentRef-exile n depth c h.0, AreCoherent-exile_group n depth children h.1)
