-- ===== src/Merkle/Prove/Zero.antt =====
-- merkle/mod.rs: `prove` beside a leaf that is `H256::default()`.
use extended_hypertrie_authe.Prelude.{
  ℕ, ◌^◌, List, [], ◌∷◌, some, true, false, ◌≡◌, refl, arith, nat_eq, ◌<◌, ◌≤◌,
}
use extended_hypertrie_authe.Storage.Backend.{KeyValueDb, DbColumn}
use extended_hypertrie_authe.Storage.Layout.{flatten_array}
use extended_hypertrie_authe.Storage.Access.{World}
use extended_hypertrie_authe.Storage.Access.View.{get-eq-view, touch}
use extended_hypertrie_authe.Merkle.{
  prove, prove_levels, verify, verify_path, depth_of, combine_hash, Access,
}
use extended_hypertrie_authe.Merkle.Hashing.{HashLib, h256_serde}
use extended_hypertrie_authe.Merkle.Levels.{level_from, next_level}
use extended_hypertrie_authe.Merkle.Dump.Database.{IsFresh, dumped, dump-eq}
use extended_hypertrie_authe.Merkle.Prove.{ShowsLevels}
use extended_hypertrie_authe.Merkle.Prove.Complete.{
  dump_prove_verify, root, root-eq, new-eq, opened, opened-ShowsLevels,
}

module _ (db : KeyValueDb) (lib : HashLib) where
  open lib use {H256, keccak_empty}

  abbrev beside_zero : H256 → List H256
  beside_zero x = x ∷ lib.default ∷ []

  prove_levels-beside_zero :
      (w : World db.State) (x : H256) (a : Access db lib)
      → ShowsLevels db lib w 1 (beside_zero x) a
      → (a' : Access db lib) × (prove_levels db lib 1 0 1 a w ≡ some (keccak_empty ∷ [], a'))
  unfolding prove_levels level_from
  prove_levels-beside_zero w x a s =
      let seen = s 1 1 (omega arith) (omega arith) (omega arith) in
      (
        touch db (h256_serde lib) flatten_array lib.default a 3 lib.default,
        rw (get-eq-view db (h256_serde lib) flatten_array lib.default a w 3, seen)
            (rw ((lib.beq_iff lib.default lib.default).1 refl) refl),
      )

  -- Two leaves of which the second is `H256::default()`, dumped into a column with no entry of the
  -- epoch: `new` opens a tree with the root that `dump` returned, `prove` returns a proof of the
  -- first leaf, and `verify` accepts it only where the leaf has the same hash with KECCAK_EMPTY as
  -- with the second leaf.
  pub verify-prove-dump_zero :
      (column : DbColumn) (w : World db.State) (epoch : ℕ) (x : H256)
      → IsFresh db lib column w epoch
      → dump_prove_verify db lib column w epoch (x ∷ lib.default ∷ []) 0
        ≡ some (true, lib.beq (combine_hash lib x keccak_empty) (combine_hash lib x lib.default))
  unfolding dump_prove_verify prove verify verify_path depth_of level_from next_level
  verify-prove-dump_zero column w epoch x fresh =
      let hashes = beside_zero x in
      let one : 0 < 2 = omega arith in
      let small : 2 ≤ 2 ^ 31 = omega arith in
      let (a', proved) =
        prove_levels-beside_zero (dumped db lib column w epoch hashes false) x
          (opened db lib column w epoch hashes one small fresh)
          (opened-ShowsLevels db lib column w epoch hashes one small fresh) in
      let whole = root-eq db lib column w epoch hashes one small fresh in
      rw
        (
          dump-eq db lib column w epoch hashes false,
          new-eq db lib column w epoch hashes one small fresh,
        )
        (rw
          (
            proved,
            (lib.beq_iff (root db lib column w epoch hashes one small fresh) _).1 refl,
            whole,
          )
          refl)
