-- ===== src/Rainblock/Codec/Fitting.antt =====
-- What the caches of a node of asb-authdb/rainblock-trie are to hold.
use extended_hypertrie_authe.Prelude.{
  ℕ, List, [], Option, none, some, Bool, ltb, ltb→lt, ◌≡◌, refl, sym, ap, ◌∙◌, subst, arith, length,
  inl, inr, Bool-cases, Option-cases, if◌then◌else◌,
}
use extended_hypertrie_authe.Prelude.Options.{◌>>=◌}
use extended_hypertrie_authe.Serde.{Bytes}
use extended_hypertrie_authe.Merkle.Hashing.{HashLib}
use extended_hypertrie_authe.Rainblock.Nibble.{Nibbles, to_mpt_key}
use extended_hypertrie_authe.Rainblock.Node.{
  TrieNode, ChildRef, TrieNodeExt, ext, ChildRefGroup, NodeCache, Commit, pending, light,
}
use extended_hypertrie_authe.Rainblock.Rlp.{Rlp, hash_with, get_rlp_encode, rlp_bytes}
use extended_hypertrie_authe.Rainblock.Codec.{
  mpt_path, encode, encode_child, encode_group, TagFits, HashFits, Fits, IsCoherent, IsCoherentRef,
  AreCoherent,
}
use extended_hypertrie_authe.Rainblock.Codec.Bare.{bare, bare_child, bare_group}
use extended_hypertrie_authe.Rainblock.Codec.Keys.{from_mpt_key-to_mpt_key}

module _ (lib : HashLib) (rlp : Rlp) where
  -- What `get_rlp_encode` leaves.
  abbrev pub Encodes : Bool → Option (Bytes × TrieNodeExt lib.H256) → TrieNode lib.H256 → Type 0
  Encodes is_root result node =
      (new : TrieNode lib.H256) × (cache : NodeCache lib.H256) × (result
        ≡ some (encode lib rlp node, ext new cache))
      × (bare new ≡ bare node)
      × IsCoherent lib rlp new
      × (cache.rlp_encode ≡ some (encode lib rlp node))
      × TagFits lib rlp is_root cache.commited (encode lib rlp node)
      × HashFits lib rlp cache.hash (encode lib rlp node)

  abbrev pub EncodesNode : Option (Bytes × TrieNode lib.H256) → TrieNode lib.H256 → Type 0
  EncodesNode result node =
      (new : TrieNode lib.H256) × (result ≡ some (encode lib rlp node, new))
      × (bare new ≡ bare node)
      × IsCoherent lib rlp new

  abbrev pub EncodesChild : Option (Bytes × ChildRef lib.H256) → ChildRef lib.H256 → Type 0
  EncodesChild result child =
      (new : ChildRef lib.H256) × (result ≡ some (encode_child lib rlp child, new))
      × (bare_child new ≡ bare_child child)
      × IsCoherentRef lib rlp new

  abbrev pub EncodesGroup :
      Option (List Bytes × ChildRefGroup lib.H256) → ChildRefGroup lib.H256 → Type 0
  EncodesGroup result children =
      (new : ChildRefGroup lib.H256) × (result ≡ some (encode_group lib rlp children, new))
      × (bare_group new ≡ bare_group children)
      × AreCoherent lib rlp new

  pub some_or-empty :
      (o : Option Bytes) (b : Bytes)
      → o ≡ some b
      → o ≡ some (elim o [ none ↦ [] | some path ↦ path ])
  some_or-empty none b h = cc
  some_or-empty (some path) b h = refl

  pub mpt_path-to_mpt_key :
      (key : Nibbles) (is_leaf : Bool)
      → to_mpt_key key is_leaf ≡ some (mpt_path lib rlp key is_leaf)
  mpt_path-to_mpt_key key is_leaf =
      let (bytes, runs, back) = from_mpt_key-to_mpt_key key is_leaf in
      some_or-empty (to_mpt_key key is_leaf) bytes runs

  abbrev pub tag_of : Bytes → Commit
  tag_of bytes = if ltb (length bytes) 32 then light else pending

  pub tag_of-TagFits :
      (is_root : Bool) (bytes : Bytes) → TagFits lib rlp is_root (tag_of bytes) bytes
  tag_of-TagFits is_root bytes = elim (Bool-cases (ltb (length bytes) 32)) [
    | inl e ↦
        let here : tag_of bytes ≡ light = rw e refl in
        subst (λ (t : Commit). TagFits lib rlp is_root t bytes) (sym here)
          (ltb→lt (length bytes) 32 e)
    | inr e ↦
        let here : tag_of bytes ≡ pending = rw e refl in
        subst (λ (t : Commit). TagFits lib rlp is_root t bytes) (sym here) (ground (arith, e))
  ]

  pub cached_bytes :
      (node : TrieNode lib.H256) (cache : NodeCache lib.H256) (bytes : Bytes)
      → cache.rlp_encode ≡ some bytes
      → get_rlp_encode lib rlp (ext node cache) ≡ some (bytes, ext node cache)
  unfolding get_rlp_encode
  cached_bytes node cache bytes e =
      ap
        (λ (o : Option Bytes). elim o [
          | some b ↦ some (b, ext node cache)
          | none ↦ rlp_bytes lib rlp node >>= λ p.
              some (p.0, ext p.1 (record cache { rlp_encode = some p.0; commited = tag_of p.0 }))
        ])
        e

  -- `hash_with` gives the hash of the encoding, and caches nothing else.
  pub hash_with_lem :
      (node : TrieNode lib.H256) (cache : NodeCache lib.H256) (bytes : Bytes)
      → HashFits lib rlp cache.hash bytes
      → (new : NodeCache lib.H256) × (hash_with lib rlp bytes (ext node cache)
          ≡ (lib.keccak bytes, ext node new))
        × (new.rlp_encode ≡ cache.rlp_encode)
        × (new.commited ≡ cache.commited)
        × HashFits lib rlp new.hash bytes
  unfolding hash_with
  hash_with_lem node cache bytes fits = elim (Option-cases cache.hash) [
    | inl e ↦ (record cache { hash = some (lib.keccak bytes) }, rw e refl, refl, refl, refl)
    | inr (digest, e) ↦
        let here : digest ≡ lib.keccak bytes =
          subst (λ (h : Option lib.H256). HashFits lib rlp h bytes) e fits in
        (
          cache,
          ap
                (λ (h : Option lib.H256). elim h [
                  | some d ↦ (d, ext node cache)
                  | none ↦
                      (lib.keccak bytes, ext node (record cache { hash = some (lib.keccak bytes) }))
                ])
                e
              ∙ ap (λ (d : lib.H256). (d, ext node cache)) here,
          refl,
          refl,
          fits,
        )
  ]

  -- `get_rlp_encode` of a node whose caches are right, if it is right on the node below the caches.
  pub cache_cases :
      (is_root : Bool) (node : TrieNode lib.H256) (cache : NodeCache lib.H256)
      → IsCoherent lib rlp node
      → Fits lib rlp is_root cache.rlp_encode cache (encode lib rlp node)
      → EncodesNode (rlp_bytes lib rlp node) node
      → Encodes is_root (get_rlp_encode lib rlp (ext node cache)) node
  unfolding get_rlp_encode
  cache_cases is_root node cache coherent fits (new, runs, same, new_coherent) =
      elim (Option-cases cache.rlp_encode) [
        | inl e ↦
            let bytes = encode lib rlp node in
            let fresh_fits =
              subst (λ (o : Option Bytes). Fits lib rlp is_root o cache (encode lib rlp node)) e
                fits in
            (
              new,
              record cache { rlp_encode = some bytes; commited = tag_of bytes },
              rw e (rw runs refl),
              same,
              new_coherent,
              refl,
              tag_of-TagFits is_root bytes,
              subst (λ (h : Option lib.H256). HashFits lib rlp h bytes) (sym fresh_fits.1) tt,
            )
        | inr (bytes, e) ↦
            let old =
              subst (λ (o : Option Bytes). Fits lib rlp is_root o cache (encode lib rlp node)) e
                fits in
            (
              node,
              cache,
              cached_bytes node cache bytes e ∙ ap (λ (b : Bytes). some (b, ext node cache)) old.0,
              refl,
              coherent,
              e ∙ ap some old.0,
              old.1,
              old.2,
            )
      ]

  -- The caches of a node that has its encoding.
  pub Fits-some :
      (is_root : Bool) (cache : NodeCache lib.H256) (bytes own : Bytes)
      → cache.rlp_encode ≡ some bytes
      → bytes ≡ own
      → TagFits lib rlp is_root cache.commited bytes
      → HashFits lib rlp cache.hash bytes
      → Fits lib rlp is_root cache.rlp_encode cache own
  Fits-some is_root cache bytes own cached same tag hashed =
      subst (λ (o : Option Bytes). Fits lib rlp is_root o cache own) (sym cached)
        (
          same,
          subst (λ (b : Bytes). TagFits lib rlp is_root cache.commited b) same tag,
          subst (λ (b : Bytes). HashFits lib rlp cache.hash b) same hashed,
        )

  -- The marks are no part of it.
  pub Fits-marks :
      (is_root : Bool) (rlp_encode : Option Bytes) (cache : NodeCache lib.H256) (bytes : Bytes)
      (exiled : ℕ) (loaded : Bool)
      → Fits lib rlp is_root rlp_encode cache bytes
      → Fits lib rlp is_root rlp_encode (record cache { exiled = exiled; loaded = loaded }) bytes
  Fits-marks is_root none cache bytes exiled loaded fits = fits
  Fits-marks is_root (some b) cache bytes exiled loaded fits = fits
