-- ===== src/Rainblock/Codec/Sound/Steps.antt =====
-- One step of a search in asb-authdb/rainblock-trie: it leaves the right caches, and a place for
-- every child with the same encoding.
use extended_hypertrie_authe.Prelude.{
  ℕ, [], ◌∷◌, Option, none, some, Bool, true, false, ◌≡◌, refl, sym, ◌∙◌, subst, list_beq, ◌&&◌,
  leb, if◌then◌else◌,
}
use extended_hypertrie_authe.Prelude.Options.{◌>>=◌, Ensures, Ensures-bind, Ensures-if}
use extended_hypertrie_authe.Serde.{Bytes}
use extended_hypertrie_authe.Merkle.Hashing.{HashLib}
use extended_hypertrie_authe.Rainblock.Nibble.{Nibbles, strip_prefix}
use extended_hypertrie_authe.Rainblock.Node.{
  TrieNode, leaf, branch, extension, ChildRef, owned, TrieNodeExt, ext, ChildRefGroup, NodeCache,
  child_at, set_child, set_child_of,
}
use extended_hypertrie_authe.Rainblock.Search.{
  NextResult, matched, not_matched, next, Stack, mark_loaded, owned_or_load, next_of,
}
use extended_hypertrie_authe.Rainblock.Rlp.{Rlp}
use extended_hypertrie_authe.Rainblock.Codec.{inlined, encode, encode_child, Fits, IsCoherent}
use extended_hypertrie_authe.Rainblock.Codec.Fitting.{Fits-marks}
use extended_hypertrie_authe.Rainblock.Codec.Sound.{
  IsSound, StandsFor, FoundFor, owned_or_load-FoundFor, AreCoherent-set_child, AreCoherent-child_at,
  encode_group-set_child, encode_group-set_child_twice, encode-branch, encode-extension,
}

module _ (lib : HashLib) (rlp : Rlp) where
  -- A node with the encoding `whole` and the right caches.
  abbrev pub Holds : Bool → Bytes → TrieNodeExt lib.H256 → Type 0
  Holds is_root whole (ext node cache) =
      IsCoherent lib rlp node
      × Fits lib rlp is_root cache.rlp_encode cache (encode lib rlp node)
      × (encode lib rlp node ≡ whole)

  -- The node takes every child with the encoding `bytes`.
  abbrev pub Slot : TrieNode lib.H256 → ℕ → Bytes → Type 0
  Slot node idx bytes =
      (new : ChildRef lib.H256)
      → encode_child lib rlp new ≡ bytes
      → Ensures (λ (after : TrieNode lib.H256). encode lib rlp after ≡ encode lib rlp node)
          (set_child_of node idx new)

  abbrev pub is_empty : Stack lib.H256 → Bool
  is_empty [] = true
  is_empty (_ ∷ _) = false

  -- A path of a tree with the encoding `whole`, to a node with the encoding `bytes`.
  abbrev pub AreSlots : Bytes → Stack lib.H256 → Bytes → Type 0
  AreSlots whole [] bytes = bytes ≡ whole
  AreSlots whole ((ext node cache, none) ∷ stack) bytes = ⊥
  AreSlots whole ((ext node cache, some idx) ∷ stack) bytes =
      Holds (is_empty stack) (encode lib rlp node) (ext node cache)
      × Slot node idx (inlined lib rlp bytes)
      × AreSlots whole stack (encode lib rlp node)

  -- What a step of a search leaves of a node.
  abbrev pub StepsFrom :
      Bool → Bytes → NextResult lib.H256 × (TrieNodeExt lib.H256 × Nibbles) → Type 0
  StepsFrom is_root whole (matched, (me, rest)) = Holds is_root whole me
  StepsFrom is_root whole (not_matched, (me, rest)) = Holds is_root whole me
  StepsFrom is_root whole (next (ext below c) idx, (ext node cache, rest)) =
      Holds is_root whole (ext node cache)
      × Holds false (encode lib rlp below) (ext below c)
      × Slot node idx (inlined lib rlp (encode lib rlp below))

  module _ (load : lib.H256 → Option (TrieNodeExt lib.H256)) (sound : IsSound lib rlp load)
      (n : ℕ) where
    pub mark_loaded-Holds :
        (depth : ℕ) (read is_root : Bool) (node : TrieNode lib.H256) (cache : NodeCache lib.H256)
        (own whole : Bytes)
        → Fits lib rlp is_root cache.rlp_encode cache own
        → IsCoherent lib rlp node
        → encode lib rlp node ≡ own
        → own ≡ whole
        → Holds is_root whole (mark_loaded load n depth read (ext node cache))
    mark_loaded-Holds depth read is_root node cache own whole fits coherent same e =
        let mark = if read && leb n depth then true else cache.loaded in
        (
          coherent,
          Fits-marks lib rlp is_root cache.rlp_encode cache (encode lib rlp node) cache.exiled mark
              (subst (λ (b : Bytes). Fits lib rlp is_root cache.rlp_encode cache b) (sym same)
                fits),
          same ∙ e,
        )

    -- The step over a branch and the step over an extension.
    pub branch_step :
        (is_root : Bool) (whole : Bytes) (children : ChildRefGroup lib.H256) (value : Bytes)
        (cache : NodeCache lib.H256) (i : ℕ) (rest : Nibbles) (depth : ℕ)
        (below : TrieNode lib.H256) (c : NodeCache lib.H256) (read : Bool)
        → Holds is_root whole (ext (branch children value) cache)
        → StandsFor lib rlp (child_at children i) (ext below c)
        → StepsFrom is_root whole (
          next (ext below c) i,
          (
            mark_loaded load n depth read
                (ext (branch (set_child children i (owned (ext below c))) value) cache),
            rest,
          ),
        )
    unfolding set_child_of
    branch_step is_root whole children value cache i rest depth below c read (coherent, fits, e)
          ((below_coherent, below_fits), same) =
        let new = set_child children i (owned (ext below c)) in
        (
          mark_loaded-Holds depth read is_root (branch new value) cache
              (encode lib rlp (branch children value)) whole fits
              (AreCoherent-set_child lib rlp children i (owned (ext below c)) coherent
                (below_coherent, below_fits))
              (encode-branch lib rlp new children value
                (encode_group-set_child lib rlp children i (owned (ext below c)) same))
              e,
          (below_coherent, below_fits, refl),
          λ after same_after. encode-branch lib rlp (set_child new i after) new value (
              encode_group-set_child_twice lib rlp children i (owned (ext below c)) after
                same_after),
        )

    pub extension_step :
        (is_root : Bool) (whole : Bytes) (key : Nibbles) (child : ChildRef lib.H256)
        (cache : NodeCache lib.H256) (rest : Nibbles) (depth : ℕ) (below : TrieNode lib.H256)
        (c : NodeCache lib.H256) (read : Bool)
        → Holds is_root whole (ext (extension key child) cache)
        → StandsFor lib rlp child (ext below c)
        → StepsFrom is_root whole (
          next (ext below c) 0,
          (mark_loaded load n depth read (ext (extension key (owned (ext below c))) cache), rest),
        )
    unfolding set_child_of
    extension_step is_root whole key child cache rest depth below c read (coherent, fits, e)
          ((below_coherent, below_fits), same) =
        (
          mark_loaded-Holds depth read is_root (extension key (owned (ext below c))) cache
              (encode lib rlp (extension key child)) whole fits (below_coherent, below_fits)
              (encode-extension lib rlp key (owned (ext below c)) child same) e,
          (below_coherent, below_fits, refl),
          λ after same_after. encode-extension lib rlp key after (owned (ext below c)) same_after,
        )

    pub branch_found :
        (is_root : Bool) (whole : Bytes) (children : ChildRefGroup lib.H256) (value : Bytes)
        (cache : NodeCache lib.H256) (i : ℕ) (rest : Nibbles) (depth : ℕ)
        → Holds is_root whole (ext (branch children value) cache)
        → (found : Option (TrieNodeExt lib.H256 × Bool))
        → FoundFor lib rlp load sound (child_at children i) found
        → Ensures (StepsFrom is_root whole) (elim found [
          | none ↦ some (not_matched, (ext (branch children value) cache, i ∷ rest))
          | some (node, is_loaded) ↦
              let me = ext (branch (set_child children i (owned node)) value) cache in
              some (next node i, (mark_loaded load n depth is_loaded me, rest))
        ])
    branch_found is_root whole children value cache i rest depth h none stands = h
    branch_found is_root whole children value cache i rest depth h (some (ext below c, read))
          stands =
        branch_step is_root whole children value cache i rest depth below c read h stands

    pub extension_found :
        (is_root : Bool) (whole : Bytes) (key : Nibbles) (child : ChildRef lib.H256)
        (cache : NodeCache lib.H256) (rest : Nibbles) (depth : ℕ)
        → Holds is_root whole (ext (extension key child) cache)
        → (found : Option (TrieNodeExt lib.H256 × Bool)) → FoundFor lib rlp load sound child found
        → Ensures (StepsFrom is_root whole) (
            found >>= λ p. some (
              next p.0 0,
              (mark_loaded load n depth p.1 (ext (extension key (owned p.0)) cache), rest),
            ))
    extension_found is_root whole key child cache rest depth h none stands = tt
    extension_found is_root whole key child cache rest depth h (some (ext below c, read)) stands =
        extension_step is_root whole key child cache rest depth below c read h stands

    pub next_of-StepsFrom :
        (is_root : Bool) (whole : Bytes) (me : TrieNodeExt lib.H256) (nibbles : Nibbles) (depth : ℕ)
        → Holds is_root whole me
        → Ensures (StepsFrom is_root whole) (next_of load n me nibbles depth)
    unfolding next_of set_child_of
    next_of-StepsFrom is_root whole (ext (leaf key value) cache) nibbles depth h =
        Ensures-if (StepsFrom is_root whole) (list_beq key nibbles) _ _ h h
    next_of-StepsFrom is_root whole (ext (branch children value) cache) [] depth h = h
    next_of-StepsFrom is_root whole (ext (branch children value) cache) (i ∷ nibbles) depth h =
        Ensures-bind (FoundFor lib rlp load sound (child_at children i)) (StepsFrom is_root whole)
          (owned_or_load load (child_at children i)) _
          (owned_or_load-FoundFor lib rlp load sound (child_at children i)
            (AreCoherent-child_at lib rlp children i h.0))
          (branch_found is_root whole children value cache i nibbles depth h)
    next_of-StepsFrom is_root whole (ext (extension key child) cache) nibbles depth h =
        elim (strip_prefix key nibbles)
          as (λ o. Ensures (StepsFrom is_root whole) (elim o [
            | none ↦ some (not_matched, (ext (extension key child) cache, nibbles))
            | some rest ↦ (do
              found ← owned_or_load load child
              (node, is_loaded) ← found
              some (
                next node 0,
                (mark_loaded load n depth is_loaded (ext (extension key (owned node)) cache), rest),
              ))
          ])) [
            | none ↦ h
            | some rest ↦
                Ensures-bind (FoundFor lib rlp load sound child) (StepsFrom is_root whole)
                  (owned_or_load load child) _ (owned_or_load-FoundFor lib rlp load sound child h.0)
                  (extension_found is_root whole key child cache rest depth h)
          ]
