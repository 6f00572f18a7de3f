-- ===== src/Rainblock/Codec/Shown.antt =====
-- A tree of asb-authdb/rainblock-trie as its encoding shows it, and the items of the encoding.
use extended_hypertrie_authe.Prelude.{
  ℕ, ◌<◌, List, [], ◌∷◌, ◌++◌, none, some, true, false, ltb, ◌≡◌, ◌≢◌, refl, sym, ap, ◌∙◌, subst,
  length, All, All-append, inl, inr, Bool-cases, if◌then◌else◌,
}
use extended_hypertrie_authe.Serde.{Bytes}
use extended_hypertrie_authe.Merkle.Hashing.{HashLib}
use extended_hypertrie_authe.Rainblock.Node.{
  TrieNode, leaf, branch, extension, ChildRef, null, ref, owned, TrieNodeExt, ext, ChildRefGroup,
  nil, cons, NodeCache, fresh, group_length, light,
}
use extended_hypertrie_authe.Rainblock.Rlp.{RlpItem, text, items, Rlp}
use extended_hypertrie_authe.Rainblock.Codec.{mpt_path, inlined, encode, encode_child, encode_group}

module _ (lib : HashLib) (rlp : Rlp) where
  -- The keys are nibbles, and a branch has 16 children.
  abbrev mutual
    pub IsShaped : TrieNode lib.H256 → Type 0
    IsShaped (leaf key value) = All (λ (i : ℕ). i < 16) key
    IsShaped (branch children value) = (group_length children ≡ 16) × AreShaped children
    IsShaped (extension key child) = All (λ (i : ℕ). i < 16) key × IsShapedRef child

    pub IsShapedRef : ChildRef lib.H256 → Type 0
    IsShapedRef null = Unit
    IsShapedRef (ref digest) = Unit
    IsShapedRef (owned node) = IsShapedExt node

    pub IsShapedExt : TrieNodeExt lib.H256 → Type 0
    IsShapedExt (ext node cache) = IsShaped node

    pub AreShaped : ChildRefGroup lib.H256 → Type 0
    AreShaped nil = Unit
    AreShaped (cons c children) = IsShapedRef c × AreShaped children

  abbrev pub light_cache : Bytes → NodeCache lib.H256
  light_cache bytes = record fresh { rlp_encode = some bytes; commited = light }

  -- A tree as its encoding shows it: a child with a long encoding is its digest.
  abbrev mutual
    pub shown : TrieNode lib.H256 → TrieNode lib.H256
    shown (leaf key value) = leaf key value
    shown (branch children value) = branch (shown_group children) value
    shown (extension key child) = extension key (shown_child child)

    pub shown_child : ChildRef lib.H256 → ChildRef lib.H256
    shown_child null = null
    shown_child (ref digest) = ref digest
    shown_child (owned node) = shown_ext node

    pub shown_ext : TrieNodeExt lib.H256 → ChildRef lib.H256
    shown_ext (ext node cache) =
        if ltb (length (encode lib rlp node)) 32
        then owned (ext (shown node) (light_cache (encode lib rlp node)))
        else ref (lib.keccak (encode lib rlp node))

    pub shown_group : ChildRefGroup lib.H256 → ChildRefGroup lib.H256
    shown_group nil = nil
    shown_group (cons c children) = cons (shown_child c) (shown_group children)

  abbrev pub IsItem : Bytes → Type 0
  IsItem raw = rlp.view raw ≢ none

  pub seen : (raw : Bytes) (item : RlpItem) → rlp.view raw ≡ some item → IsItem raw
  seen raw item e h = cc

  -- The parts of a node, and the view of a node.
  abbrev pub parts_of : TrieNode lib.H256 → List Bytes
  parts_of (leaf key value) = rlp.append (mpt_path lib rlp key true) ∷ rlp.append value ∷ []
  parts_of (branch children value) = encode_group lib rlp children ++ (rlp.append value ∷ [])
  parts_of (extension key child) =
      rlp.append (mpt_path lib rlp key false) ∷ encode_child lib rlp child ∷ []

  pub encode-parts_of :
      (node : TrieNode lib.H256) → encode lib rlp node ≡ rlp.append_list (parts_of node)
  encode-parts_of (leaf key value) = refl
  encode-parts_of (branch children value) = refl
  encode-parts_of (extension key child) = refl

  pub inlined-IsItem : (bytes : Bytes) → IsItem bytes → IsItem (inlined lib rlp bytes)
  inlined-IsItem bytes h = elim (Bool-cases (ltb (length bytes) 32)) [
    | inl e ↦ subst IsItem (sym (rw (inlined, e) refl)) h
    | inr e ↦ subst IsItem (sym (rw (inlined, e) refl)) (
        seen (rlp.append (lib.as_bytes (lib.keccak bytes))) (text (lib.as_bytes (lib.keccak bytes)))
          (rlp.view-append (lib.as_bytes (lib.keccak bytes))))
  ]

  pub append-IsItem : (b : Bytes) → IsItem (rlp.append b)
  append-IsItem b = seen (rlp.append b) (text b) (rlp.view-append b)

  pub list-IsItem : (parts : List Bytes) → All IsItem parts → IsItem (rlp.append_list parts)
  list-IsItem parts h = seen (rlp.append_list parts) (items parts) (rlp.view-append_list parts h)

  mutual
    pub parts_of-IsItem : (node : TrieNode lib.H256) → All IsItem (parts_of node)
    parts_of-IsItem (leaf key value) =
        (append-IsItem (mpt_path lib rlp key true), (append-IsItem value, tt))
    parts_of-IsItem (branch children value) =
        All-append IsItem (encode_group lib rlp children) (rlp.append value ∷ [])
          (encode_group-IsItem children) (append-IsItem value, tt)
    parts_of-IsItem (extension key child) =
        (append-IsItem (mpt_path lib rlp key false), (encode_child-IsItem child, tt))

    pub encode_child-IsItem : (child : ChildRef lib.H256) → IsItem (encode_child lib rlp child)
    encode_child-IsItem null = append-IsItem []
    encode_child-IsItem (ref digest) = append-IsItem (lib.as_bytes digest)
    encode_child-IsItem (owned (ext node cache)) = inlined-IsItem (encode lib rlp node) (
        subst IsItem (sym (encode-parts_of node))
          (list-IsItem (parts_of node) (parts_of-IsItem node)))

    pub encode_group-IsItem :
        (children : ChildRefGroup lib.H256) → All IsItem (encode_group lib rlp children)
    encode_group-IsItem nil = tt
    encode_group-IsItem (cons c children) = (encode_child-IsItem c, encode_group-IsItem children)

  -- What the view of a node shows, and that its parts are shorter.
  pub view-encode :
      (node : TrieNode lib.H256) → rlp.view (encode lib rlp node) ≡ some (items (parts_of node))
  view-encode node =
      ap rlp.view (encode-parts_of node)
      ∙ rlp.view-append_list (parts_of node) (parts_of-IsItem node)

  pub parts_of-shorter :
      (node : TrieNode lib.H256)
      → All (λ (x : Bytes). length x < length (encode lib rlp node)) (parts_of node)
  parts_of-shorter node =
      subst (λ (b : Bytes). All (λ (x : Bytes). length x < length b) (parts_of node))
        (sym (encode-parts_of node)) (rlp.length-append_list (parts_of node))
