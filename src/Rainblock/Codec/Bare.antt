-- ===== src/Rainblock/Codec/Bare.antt =====
-- A tree of asb-authdb/rainblock-trie without its caches.
use extended_hypertrie_authe.Prelude.{List, ◌∷◌, ◌++◌, ◌≡◌, [], false, refl, sym, ap, ap₂, ◌∙◌}
use extended_hypertrie_authe.Serde.{Bytes}
use extended_hypertrie_authe.Merkle.Hashing.{HashLib}
use extended_hypertrie_authe.Rainblock.Node.{
  TrieNode, leaf, branch, extension, ChildRef, null, ref, owned, TrieNodeExt, ext, ChildRefGroup,
  nil, cons, fresh,
}
use extended_hypertrie_authe.Rainblock.Rlp.{Rlp}
use extended_hypertrie_authe.Rainblock.Codec.{encode, encode_child, encode_group, mpt_path, inlined}

module _ {H : Type 0} where
  abbrev mutual
    pub bare : TrieNode H → TrieNode H
    bare (leaf key value) = leaf key value
    bare (branch children value) = branch (bare_group children) value
    bare (extension key child) = extension key (bare_child child)

    pub bare_child : ChildRef H → ChildRef H
    bare_child null = null
    bare_child (ref digest) = ref digest
    bare_child (owned node) = owned (bare_ext node)

    pub bare_ext : TrieNodeExt H → TrieNodeExt H
    bare_ext (ext node cache) = ext (bare node) fresh

    pub bare_group : ChildRefGroup H → ChildRefGroup H
    bare_group nil = nil
    bare_group (cons c children) = cons (bare_child c) (bare_group children)

module _ (lib : HashLib) (rlp : Rlp) where
  mutual
    encode-bare : (node : TrieNode lib.H256) → encode lib rlp (bare node) ≡ encode lib rlp node
    encode-bare (leaf key value) = refl
    encode-bare (branch children value) =
        ap (λ (parts : List Bytes). rlp.append_list (parts ++ (rlp.append value ∷ [])))
          (encode_group-bare children)
    encode-bare (extension key child) =
        ap (λ (part : Bytes). rlp.append_list (rlp.append (mpt_path lib rlp key false) ∷ part ∷ []))
          (encode_child-bare child)

    pub encode_child-bare :
        (child : ChildRef lib.H256)
        → encode_child lib rlp (bare_child child) ≡ encode_child lib rlp child
    encode_child-bare null = refl
    encode_child-bare (ref digest) = refl
    encode_child-bare (owned (ext node cache)) = ap (inlined lib rlp) (encode-bare node)

    encode_group-bare :
        (children : ChildRefGroup lib.H256)
        → encode_group lib rlp (bare_group children) ≡ encode_group lib rlp children
    encode_group-bare nil = refl
    encode_group-bare (cons c children) =
        ap₂ (λ (x : Bytes) (xs : List Bytes). x ∷ xs) (encode_child-bare c)
          (encode_group-bare children)

  -- Two trees that differ in their caches only have the same encoding.
  pub encode-bare_eq :
      (a b : TrieNode lib.H256) → bare a ≡ bare b → encode lib rlp a ≡ encode lib rlp b
  encode-bare_eq a b same = sym (encode-bare a) ∙ (ap (encode lib rlp) same ∙ encode-bare b)
