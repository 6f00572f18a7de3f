-- ===== src/Checks/CacheRuns.antt =====
-- The caches of the trie of asb-authdb/rainblock-trie at concrete values.
use extended_hypertrie_authe.Prelude.{
  ℕ, List, [], ◌∷◌, Option, some, ◌≡◌, refl, arith, list_beq, list_beq_iff, replicate, Bool, true,
  false, none, sym, ap, subst, get_or, if◌then◌else◌,
}
use extended_hypertrie_authe.Prelude.Options.{◌>>=◌, Ensures}
use extended_hypertrie_authe.Storage.Backend.{DbOp, insert}
use extended_hypertrie_authe.Rainblock.Node.{
  TrieNode, TrieNodeExt, ext, committed, leaf, branch, ref, owned, seal, set_child, empty_group,
}
use extended_hypertrie_authe.Rainblock.Nibble.{to_mpt_key, combine_pair, from_mpt_key}
use extended_hypertrie_authe.Rainblock.Load.{bytes_at}
use extended_hypertrie_authe.Rainblock.Codec.{encode}
use extended_hypertrie_authe.Rainblock.Commits.{load_from}
use extended_hypertrie_authe.Rainblock.Content.{IsClosed, IsTrieExt}
use extended_hypertrie_authe.Rainblock.Codec.Sound.Stores.{KeepsNodes, IsRecord}
use extended_hypertrie_authe.Serde.{Bytes}
use extended_hypertrie_authe.Rainblock.Ops.{MerklePatriciaTree, get, put}
use extended_hypertrie_authe.Rainblock.Content.Refines.{IsTree}
use extended_hypertrie_authe.Rainblock.Codec.Sound.{IsSound}
use extended_hypertrie_authe.Rainblock.Codec.Sound.Changes.{IsCoherentTree}
use extended_hypertrie_authe.Rainblock.Codec.Sound.Trees.{put-IsCoherentTree, get-IsCoherentTree}
use extended_hypertrie_authe.Checks.Toy.{toy_lib, log_db, mix}
use extended_hypertrie_authe.Checks.ToyRlp.{toy_rlp}
use extended_hypertrie_authe.Checks.TrieRuns.{
  no_load, NoneKnown, left_leaf, none_closed, two_keys, two_keys-IsTree,
}

no_load-IsSound : IsSound toy_lib toy_rlp no_load
no_load-IsSound digest = tt

two_keys-IsCoherentTree : IsCoherentTree toy_lib toy_rlp two_keys
two_keys-IsCoherentTree = (
  (
    (
      tt,
      (
        (tt, (refl, refl)),
        (
          (tt, (refl, refl)),
          (tt, (tt, (tt, (tt, (tt, (tt, (tt, (tt, (tt, (tt, (tt, (tt, (tt, tt))))))))))))),
        ),
      ),
    ),
    (refl, refl),
  ),
  (refl, refl),
)

put-IsCoherentTree_example :
    (new : MerklePatriciaTree ℕ) × (put no_load 2 two_keys (0x12 ∷ 0x10 ∷ []) [] ≡ some new)
    × IsTree no_load NoneKnown new
    × IsCoherentTree toy_lib toy_rlp new
put-IsCoherentTree_example =
    put-IsCoherentTree toy_lib toy_rlp no_load no_load-IsSound 2 NoneKnown two_keys
      (0x12 ∷ 0x10 ∷ []) [] none_closed two_keys-IsTree two_keys-IsCoherentTree
      (omega (arith), (omega (arith), tt)) (λ eq. cc)

abbrev long : ℕ → Bytes
long b = replicate 40 b

-- A database with one leaf, and a root with that leaf for its third child.
abbrev saved_leaf : TrieNode ℕ
saved_leaf = leaf (10 ∷ []) (long 8)

abbrev saved_bytes : Bytes
saved_bytes = encode toy_lib toy_rlp saved_leaf

abbrev one_record : List DbOp
one_record = insert 0 (toy_lib.as_bytes (mix saved_bytes)) saved_bytes ∷ []

abbrev IsSaved : ℕ → Type 0
IsSaved digest = digest ≡ mix saved_bytes

abbrev half_read : MerklePatriciaTree ℕ
half_read = record {
  root = some (
      seal (
        branch
          (set_child (set_child empty_group 1 (owned (seal left_leaf))) 2 (ref (mix saved_bytes)))
          []));
  del_ops = [];
}

saved_if :
    (digest : ℕ) (b : Bool)
    → list_beq (toy_lib.as_bytes (mix saved_bytes)) (toy_lib.as_bytes digest) ≡ b
    → Ensures (IsRecord toy_lib toy_rlp digest) (if b then some saved_bytes else none)
unfolding to_mpt_key
saved_if digest false e = tt
saved_if digest true e =
    let same = (list_beq_iff (toy_lib.as_bytes (mix saved_bytes)) (toy_lib.as_bytes digest)).0 e in
    (
      saved_leaf,
      refl,
      (omega (arith), tt),
      sym (ap (λ (bytes : Bytes). get_or bytes 0 0) same),
      omega (arith),
    )

one_record-KeepsNodes : KeepsNodes toy_lib toy_rlp log_db one_record
one_record-KeepsNodes digest = saved_if digest _ refl

abbrev IsReadable : ℕ → Type 0
IsReadable digest =
    (node : TrieNodeExt ℕ) × (load_from toy_lib toy_rlp log_db one_record digest ≡ some node)
    × IsTrieExt (load_from toy_lib toy_rlp log_db one_record) IsSaved node

saved_leaf-IsReadable : IsReadable (mix saved_bytes)
unfolding load_from mix list_beq from_mpt_key bytes_at to_mpt_key combine_pair
saved_leaf-IsReadable = (
  ext saved_leaf (record {
    hash = some (mix saved_bytes);
    rlp_encode = some saved_bytes;
    commited = committed;
    exiled = 0;
    loaded = false;
  }),
  refl,
  ((omega (arith), tt), λ eq. cc),
)

IsSaved-IsClosed : IsClosed (load_from toy_lib toy_rlp log_db one_record) IsSaved
IsSaved-IsClosed digest known = subst IsReadable (sym known) saved_leaf-IsReadable

half_read-IsTree : IsTree (load_from toy_lib toy_rlp log_db one_record) IsSaved half_read
half_read-IsTree = (
  refl,
  (
    tt,
    (
      ((omega (arith), tt), λ eq. cc),
      (refl, (tt, (tt, (tt, (tt, (tt, (tt, (tt, (tt, (tt, (tt, (tt, (tt, (tt, tt)))))))))))))),
    ),
  ),
)

half_read-IsCoherentTree : IsCoherentTree toy_lib toy_rlp half_read
half_read-IsCoherentTree = (
  (
    tt,
    (
      (tt, (refl, refl)),
      (tt, (tt, (tt, (tt, (tt, (tt, (tt, (tt, (tt, (tt, (tt, (tt, (tt, (tt, tt)))))))))))))),
    ),
  ),
  (refl, refl),
)

-- The leaf is read from the database.
get-IsCoherentTree_example :
    (value : Option Bytes) × (new : MerklePatriciaTree ℕ) × (get
        (load_from toy_lib toy_rlp log_db one_record)
        1
        half_read
        (0x2a ∷ [])
      ≡ some (value, new))
    × IsTree (load_from toy_lib toy_rlp log_db one_record) IsSaved new
    × IsCoherentTree toy_lib toy_rlp new
get-IsCoherentTree_example =
    get-IsCoherentTree toy_lib toy_rlp log_db one_record 1 IsSaved half_read (0x2a ∷ [])
      one_record-KeepsNodes IsSaved-IsClosed half_read-IsTree half_read-IsCoherentTree
      (omega (arith), tt) (λ eq. cc)

saved_leaf_read :
    (get (load_from toy_lib toy_rlp log_db one_record) 1 half_read (0x2a ∷ []) >>= λ r. r.0)
    ≡ some (long 8)
unfolding get load_from mix list_beq from_mpt_key bytes_at to_mpt_key combine_pair
saved_leaf_read = refl
