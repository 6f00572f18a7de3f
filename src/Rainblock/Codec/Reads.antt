-- ===== src/Rainblock/Codec/Reads.antt =====
-- The decoders of asb-authdb/rainblock-trie/src (trie_node.rs, child_ref.rs) on one node.
use extended_hypertrie_authe.Prelude.{
  ℕ, suc, ◌+◌, ◌*◌, ◌<◌, List, [], ◌∷◌, ◌++◌, some, Bool, true, false, ltb, ◌==◌, ◌≡◌, refl, sym,
  ap, ◌∙◌, subst, arith, length, length-append, take, take-append, get_elem?, All, inl, inr,
  Bool-cases,
}
use extended_hypertrie_authe.Serde.{Bytes}
use extended_hypertrie_authe.Merkle.Hashing.{HashLib}
use extended_hypertrie_authe.Rainblock.Nibble.{Nibbles, from_mpt_key}
use extended_hypertrie_authe.Rainblock.Node.{
  TrieNode, leaf, branch, extension, ChildRef, ref, owned, ext, ChildRefGroup, nil, cons, NodeCache,
  group_length,
}
use extended_hypertrie_authe.Rainblock.Rlp.{text, items, Rlp}
use extended_hypertrie_authe.Rainblock.Load.{
  bytes_at, from_child_ref, decode_node, decode_child, decode_group,
}
use extended_hypertrie_authe.Rainblock.Codec.{mpt_path, inlined, encode, encode_child, encode_group}
use extended_hypertrie_authe.Rainblock.Codec.Keys.{from_mpt_key-to_mpt_key}
use extended_hypertrie_authe.Rainblock.Codec.Shown.{
  IsShaped, light_cache, shown, shown_child, shown_group, parts_of, view-encode,
}

module _ (lib : HashLib) (rlp : Rlp) where
  -- A digest is 32 bytes, which is no empty string.
  pub decode_digest :
      (fuel : ℕ) (raw bytes : Bytes)
      → rlp.view raw ≡ some (text bytes)
      → length bytes ≡ 32
      → decode_child lib rlp (suc fuel) raw ≡ some (ref (lib.from_slice bytes))
  unfolding decode_child
  decode_digest fuel raw [] view size = absurd (omega (arith, size))
  decode_digest fuel raw (b ∷ bytes) view size =
      let here : (length (b ∷ bytes) == 32) ≡ true = ground (arith, size) in rw view (rw here refl)

  pub decode_ref :
      (fuel : ℕ) (digest : lib.H256)
      → decode_child lib rlp (suc fuel) (rlp.append (lib.as_bytes digest)) ≡ some (ref digest)
  decode_ref fuel digest =
      decode_digest fuel (rlp.append (lib.as_bytes digest)) (lib.as_bytes digest)
        (rlp.view-append (lib.as_bytes digest)) (lib.length-as_bytes digest)
      ∙ ap (λ (h : lib.H256). some (ref h)) (lib.from_slice-as_bytes digest)

  pub decode_light :
      (fuel : ℕ) (node : TrieNode lib.H256) (part : Bytes) (parts : List Bytes)
      → parts_of lib rlp node ≡ part ∷ parts
      → ltb (length (encode lib rlp node)) 32 ≡ true
      → decode_node lib rlp fuel (encode lib rlp node) ≡ some (shown lib rlp node)
      → decode_child lib rlp (suc fuel) (encode lib rlp node)
        ≡ some (owned (ext (shown lib rlp node) (light_cache lib rlp (encode lib rlp node))))
  unfolding decode_child from_child_ref
  decode_light fuel node part parts e short inner =
      let view : rlp.view (encode lib rlp node) ≡ some (items (part ∷ parts)) =
        (view-encode lib rlp) node ∙ ap (λ (xs : List Bytes). some (items xs)) e in
      rw view (rw inner (rw short refl))

  pub first_part :
      (node : TrieNode lib.H256)
      → IsShaped lib rlp node
      → (part : Bytes) × (parts : List Bytes) × (parts_of lib rlp node ≡ part ∷ parts)
  first_part (leaf key value) h =
      (rlp.append (mpt_path lib rlp key true), rlp.append value ∷ [], refl)
  first_part (branch nil value) h = absurd (omega (arith, h.0))
  first_part (branch (cons c children) value) h =
      (encode_child lib rlp c, encode_group lib rlp children ++ (rlp.append value ∷ []), refl)
  first_part (extension key child) h =
      (rlp.append (mpt_path lib rlp key false), encode_child lib rlp child ∷ [], refl)

  -- A child that is a node, if the node is read back.
  pub decode_owned :
      (fuel : ℕ) (node : TrieNode lib.H256) (cache : NodeCache lib.H256)
      → IsShaped lib rlp node
      → (ltb (length (encode lib rlp node)) 32 ≡ true
          → decode_node lib rlp fuel (encode lib rlp node) ≡ some (shown lib rlp node))
      → decode_child lib rlp (suc fuel) (encode_child lib rlp (owned (ext node cache)))
        ≡ some (shown_child lib rlp (owned (ext node cache)))
  decode_owned fuel node cache h inner =
      let bytes = encode lib rlp node in
      elim (Bool-cases (ltb (length bytes) 32)) [
        | inl e ↦
            let (part, parts, here) = first_part node h in
            let raw : inlined lib rlp bytes ≡ bytes = rw (inlined, e) refl in
            let after : (shown_child lib rlp) (owned (ext node cache))
                ≡ owned (ext (shown lib rlp node) (light_cache lib rlp bytes)) =
              rw e refl in
            ap (decode_child lib rlp (suc fuel)) raw
            ∙ (decode_light fuel node part parts here e (inner e) ∙ ap some (sym after))
        | inr e ↦
            let raw : inlined lib rlp bytes ≡ rlp.append (lib.as_bytes (lib.keccak bytes)) =
              rw (inlined, e) refl in
            let after : (shown_child lib rlp) (owned (ext node cache)) ≡ ref (lib.keccak bytes) =
              rw e refl in
            ap (decode_child lib rlp (suc fuel)) raw
            ∙ (decode_ref fuel (lib.keccak bytes) ∙ ap some (sym after))
      ]

  pub bytes_at-view :
      (parts : List Bytes) (i : ℕ) (b : Bytes)
      → get_elem? parts i ≡ some (rlp.append b)
      → bytes_at lib rlp parts i ≡ some b
  unfolding bytes_at
  bytes_at-view parts i b e = rw e (rw (rlp.view-append b) refl)

  pub from_mpt_path :
      (key : Nibbles) (is_leaf : Bool)
      → All (λ (i : ℕ). i < 16) key
      → from_mpt_key (mpt_path lib rlp key is_leaf) ≡ some (key, is_leaf)
  from_mpt_path key is_leaf h =
      let (bytes, runs, back) = from_mpt_key-to_mpt_key key is_leaf in
      let here : mpt_path lib rlp key is_leaf ≡ bytes = rw (mpt_path, runs) refl in
      ap from_mpt_key here ∙ back h

  pub length-encode_group :
      (children : ChildRefGroup lib.H256)
      → length (encode_group lib rlp children) ≡ group_length children
  length-encode_group nil = refl
  length-encode_group (cons c children) = ap suc (length-encode_group children)

  -- The fuel for a node, for a child, and for the children of a node with fewer than `size` bytes.
  abbrev pub node_fuel : ℕ → ℕ
  node_fuel size = 20 * (size + 1)

  pub same_size :
      (bytes : Bytes) → ltb (length bytes) 32 ≡ true → length (inlined lib rlp bytes) ≡ length bytes
  same_size bytes e = rw (inlined, e) refl

  pub read_leaf :
      (fuel : ℕ) (key : Nibbles) (value : Bytes)
      → All (λ (i : ℕ). i < 16) key
      → decode_node lib rlp (suc fuel) (encode lib rlp (leaf key value)) ≡ some (leaf key value)
  unfolding decode_node
  read_leaf fuel key value h = rw (view-encode lib rlp (leaf key value)) (
      rw
        (
          bytes_at-view (parts_of lib rlp (leaf key value)) 0 (mpt_path lib rlp key true) refl,
          from_mpt_path key true h,
          bytes_at-view (parts_of lib rlp (leaf key value)) 1 value refl,
        )
        refl)

  pub read_extension :
      (fuel : ℕ) (key : Nibbles) (child : ChildRef lib.H256)
      → All (λ (i : ℕ). i < 16) key
      → decode_child lib rlp fuel (encode_child lib rlp child) ≡ some (shown_child lib rlp child)
      → decode_node lib rlp (suc fuel) (encode lib rlp (extension key child))
        ≡ some (extension key (shown_child lib rlp child))
  unfolding decode_node
  read_extension fuel key child h inner = rw (view-encode lib rlp (extension key child)) (
      rw
        (
          bytes_at-view (parts_of lib rlp (extension key child)) 0 (mpt_path lib rlp key false)
              refl,
          from_mpt_path key false h,
          inner,
        )
        refl)

  pub last_part : (xs : List Bytes) (y : Bytes) → get_elem? (xs ++ (y ∷ [])) (length xs) ≡ some y
  last_part [] y = refl
  last_part (x ∷ xs) y = last_part xs y

  pub read_branch :
      (fuel : ℕ) (children : ChildRefGroup lib.H256) (value : Bytes)
      → group_length children ≡ 16
      → decode_group lib rlp fuel (encode_group lib rlp children)
        ≡ some (shown_group lib rlp children)
      → decode_node lib rlp (suc fuel) (encode lib rlp (branch children value))
        ≡ some (branch (shown_group lib rlp children) value)
  unfolding decode_node
  read_branch fuel children value sixteen inner =
      let group = encode_group lib rlp children in
      let parts = group ++ (rlp.append value ∷ []) in
      let long : length group ≡ 16 = length-encode_group children ∙ sixteen in
      let size : length parts ≡ 17 =
        omega (arith, long, length-append group (rlp.append value ∷ [])) in
      let not_two : (length parts == 2) ≡ false = ground (arith, size) in
      let seventeen : (length parts == 17) ≡ true = ground (arith, size) in
      let front : take 16 parts ≡ group =
        subst (λ (i : ℕ). take i parts ≡ group) long (take-append group (rlp.append value ∷ [])) in
      let back = bytes_at-view parts 16 value (
        subst (λ (i : ℕ). get_elem? parts i ≡ some (rlp.append value)) long
          (last_part group (rlp.append value))) in
      rw (view-encode lib rlp (branch children value))
        (rw not_two (rw seventeen (rw front (rw inner (rw back refl)))))
