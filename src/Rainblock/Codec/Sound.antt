-- ===== src/Rainblock/Codec/Sound.antt =====
-- That the caches of a tree of asb-authdb/rainblock-trie stay right: what holds of a database that
-- keeps nodes under their hashes, and of a child.
pub mod Steps
pub mod Paths
pub mod Exiles
pub mod Inserts
pub mod Removes
pub mod Changes
pub mod Stores
pub mod Trees
use extended_hypertrie_authe.Prelude.{
  ℕ, zero, suc, ◌≤◌, List, [], ◌∷◌, ◌++◌, Option, none, some, Bool, true, false, ltb, leb, ◌≡◌,
  refl, sym, ap, ap₂, ◌∙◌, subst, arith, length, ◌==◌, ◌&&◌, Bool-cases, inl, inr, if◌then◌else◌,
}
use extended_hypertrie_authe.Prelude.Options.{◌>>=◌, Ensures, Ensures-bind, Ensures-if}
use extended_hypertrie_authe.Serde.{Bytes}
use extended_hypertrie_authe.Merkle.Hashing.{HashLib}
use extended_hypertrie_authe.Rainblock.Node.{
  TrieNode, leaf, branch, extension, ChildRef, null, ref, owned, TrieNodeExt, ext, ChildRefGroup,
  nil, cons, NodeCache, child_at, set_child, set_child_of, null_group,
}
use extended_hypertrie_authe.Rainblock.Search.{owned_or_load, loaded_mut}
use extended_hypertrie_authe.Rainblock.Rlp.{Rlp}
use extended_hypertrie_authe.Rainblock.Codec.{
  mpt_path, inlined, encode, encode_child, encode_group, Fits, IsCoherent, IsCoherentRef,
  IsCoherentExt, AreCoherent,
}

bind_some : {A : Type 0} (o : Option A) → (o >>= λ a. some a) ≡ o
bind_some none = refl
bind_some (some a) = refl

module _ (lib : HashLib) (rlp : Rlp) where
  -- A node that stands in the database under its hash.
  abbrev pub IsStored : lib.H256 → TrieNodeExt lib.H256 → Type 0
  IsStored digest (ext node cache) =
      IsCoherentExt lib rlp (ext node cache)
      × (digest ≡ lib.keccak (encode lib rlp node))
      × (32 ≤ length (encode lib rlp node))

  abbrev pub IsSound : (lib.H256 → Option (TrieNodeExt lib.H256)) → Type 0
  IsSound load = (digest : lib.H256) → Ensures (IsStored digest) (load digest)

  encode_child-ref :
      (digest : lib.H256) (bytes : Bytes)
      → digest ≡ lib.keccak bytes
      → 32 ≤ length bytes
      → inlined lib rlp bytes ≡ encode_child lib rlp (ref digest)
  encode_child-ref digest bytes same long =
      let e : ltb (length bytes) 32 ≡ false = ground arith in
      rw (inlined, e) (ap (λ (h : lib.H256). rlp.append (lib.as_bytes h)) (sym same))

  -- A node that stands for a child.
  abbrev pub StandsFor : ChildRef lib.H256 → TrieNodeExt lib.H256 → Type 0
  StandsFor child node =
      IsCoherentExt lib rlp node × (encode_child lib rlp (owned node) ≡ encode_child lib rlp child)

  pub StandsFor-IsCoherentExt :
      (child : ChildRef lib.H256) (node : TrieNodeExt lib.H256)
      → StandsFor child node
      → IsCoherentExt lib rlp node
  StandsFor-IsCoherentExt child (ext node cache) h = h.0

  module _ (load : lib.H256 → Option (TrieNodeExt lib.H256)) (sound : IsSound load) where
    stored-StandsFor :
        (digest : lib.H256) (node : TrieNodeExt lib.H256)
        → IsStored digest node
        → StandsFor (ref digest) node
    stored-StandsFor digest (ext node cache) (coherent, same, long) =
        (coherent, encode_child-ref digest (encode lib rlp node) same long)

    pub loaded_mut-StandsFor :
        (child : ChildRef lib.H256)
        → IsCoherentRef lib rlp child
        → Ensures (StandsFor child) (loaded_mut load child)
    unfolding loaded_mut
    loaded_mut-StandsFor null h = tt
    loaded_mut-StandsFor (ref digest) h =
        subst (Ensures (StandsFor (ref digest))) (bind_some (load digest)) (
          Ensures-bind (IsStored digest) (StandsFor (ref digest)) (load digest)
            (λ (node : TrieNodeExt lib.H256). some node) (sound digest) (stored-StandsFor digest))
    loaded_mut-StandsFor (owned node) h = (h, refl)

    abbrev pub FoundFor : ChildRef lib.H256 → Option (TrieNodeExt lib.H256 × Bool) → Type 0
    FoundFor child none = Unit
    FoundFor child (some (node, read)) = StandsFor child node

    pub owned_or_load-FoundFor :
        (child : ChildRef lib.H256)
        → IsCoherentRef lib rlp child
        → Ensures (FoundFor child) (owned_or_load load child)
    unfolding owned_or_load
    owned_or_load-FoundFor null h = tt
    owned_or_load-FoundFor (ref digest) h =
        Ensures-bind (IsStored digest) (FoundFor (ref digest)) (load digest)
          (λ (node : TrieNodeExt lib.H256). some (some (node, true))) (sound digest)
          (stored-StandsFor digest)
    owned_or_load-FoundFor (owned node) h = (h, refl)

  pub AreCoherent-set_child :
      (children : ChildRefGroup lib.H256) (i : ℕ) (new : ChildRef lib.H256)
      → AreCoherent lib rlp children
      → IsCoherentRef lib rlp new
      → AreCoherent lib rlp (set_child children i new)
  AreCoherent-set_child nil i new h k = tt
  AreCoherent-set_child (cons c children) zero new h k = (k, h.1)
  AreCoherent-set_child (cons c children) (suc i) new h k =
      (h.0, AreCoherent-set_child children i new h.1 k)

  pub AreCoherent-child_at :
      (children : ChildRefGroup lib.H256) (i : ℕ)
      → AreCoherent lib rlp children
      → IsCoherentRef lib rlp (child_at children i)
  AreCoherent-child_at nil i h = tt
  AreCoherent-child_at (cons c children) zero h = h.0
  AreCoherent-child_at (cons c children) (suc i) h = AreCoherent-child_at children i h.1

  pub AreCoherent-null_group : (n : ℕ) → AreCoherent lib rlp (null_group n)
  AreCoherent-null_group zero = tt
  AreCoherent-null_group (suc n) = (tt, AreCoherent-null_group n)

  -- A child in place of one with the same encoding.
  pub encode_group-set_child :
      (children : ChildRefGroup lib.H256) (i : ℕ) (new : ChildRef lib.H256)
      → encode_child lib rlp new ≡ encode_child lib rlp (child_at children i)
      → encode_group lib rlp (set_child children i new) ≡ encode_group lib rlp children
  encode_group-set_child nil i new e = refl
  encode_group-set_child (cons c children) zero new e =
      ap (λ (x : Bytes). x ∷ encode_group lib rlp children) e
  encode_group-set_child (cons c children) (suc i) new e =
      ap (λ (xs : List Bytes). encode_child lib rlp c ∷ xs)
        (encode_group-set_child children i new e)

  pub encode_group-set_child_twice :
      (children : ChildRefGroup lib.H256) (i : ℕ) (old new : ChildRef lib.H256)
      → encode_child lib rlp new ≡ encode_child lib rlp old
      → encode_group lib rlp (set_child (set_child children i old) i new)
        ≡ encode_group lib rlp (set_child children i old)
  encode_group-set_child_twice nil i old new e = refl
  encode_group-set_child_twice (cons c children) zero old new e =
      ap (λ (x : Bytes). x ∷ encode_group lib rlp children) e
  encode_group-set_child_twice (cons c children) (suc i) old new e =
      ap (λ (xs : List Bytes). encode_child lib rlp c ∷ xs)
        (encode_group-set_child_twice children i old new e)

  -- A branch and an extension with another child.
  pub encode-branch :
      (a b : ChildRefGroup lib.H256) (value : Bytes)
      → encode_group lib rlp a ≡ encode_group lib rlp b
      → encode lib rlp (branch a value) ≡ encode lib rlp (branch b value)
  encode-branch a b value e =
      ap (λ (parts : List Bytes). rlp.append_list (parts ++ (rlp.append value ∷ []))) e

  pub encode-extension :
      (key : List ℕ) (a b : ChildRef lib.H256)
      → encode_child lib rlp a ≡ encode_child lib rlp b
      → encode lib rlp (extension key a) ≡ encode lib rlp (extension key b)
  encode-extension key a b e =
      ap (λ (part : Bytes). rlp.append_list (rlp.append (mpt_path lib rlp key false) ∷ part ∷ [])) e

  -- A write through `child_mut`.
  pub set_child_of-IsCoherent :
      (node : TrieNode lib.H256) (idx : ℕ) (new : ChildRef lib.H256)
      → IsCoherent lib rlp node
      → IsCoherentRef lib rlp new
      → Ensures (IsCoherent lib rlp) (set_child_of node idx new)
  unfolding set_child_of
  set_child_of-IsCoherent (leaf key value) idx new h k = tt
  set_child_of-IsCoherent (branch children value) idx new h k =
      AreCoherent-set_child children idx new h k
  set_child_of-IsCoherent (extension key child) idx new h k =
      Ensures-if (IsCoherent lib rlp) (idx == 0) (some (extension key new)) none k tt
