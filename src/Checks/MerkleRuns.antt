-- ===== src/Checks/MerkleRuns.antt =====
-- The Merkle tree at concrete leaves.
use extended_hypertrie_authe.Prelude.{
  ℕ, List, [], ◌∷◌, some, true, false, ◌≡◌, ◌⊎◌, refl, arith, ◌^◌, ◌+◌, nat_eq,
}
use extended_hypertrie_authe.Prelude.Options.{◌>>=◌}
use extended_hypertrie_authe.Storage.Backend.{column_get}
use extended_hypertrie_authe.Storage.Access.{get}
use extended_hypertrie_authe.Storage.Layout.{flatten_array}
use extended_hypertrie_authe.Merkle.Hashing.{h256_serde}
use extended_hypertrie_authe.Merkle.{dump, verify, verify_path, combine_hash, depth_of}
use extended_hypertrie_authe.Merkle.Levels.{level_from}
use extended_hypertrie_authe.Merkle.Dump.Database.{IsFresh, epoch_access, get-dump}
use extended_hypertrie_authe.Merkle.Prove.{NoDefault, NoDefault-leaves}
use extended_hypertrie_authe.Merkle.Prove.Complete.{dump_prove_verify, verify-prove-dump}
use extended_hypertrie_authe.Merkle.Prove.Zero.{verify-prove-dump_zero}
use extended_hypertrie_authe.Merkle.Sound.{Collision, verify_unique}
use extended_hypertrie_authe.Checks.Toy.{log_db, toy_lib, mix, mix-ne-zero, empty_world, column_two}

abbrev leaves : List ℕ
leaves = 11 ∷ 12 ∷ 13 ∷ 14 ∷ 15 ∷ []

leaves-NoDefault : NoDefault toy_lib leaves
leaves-NoDefault = NoDefault-leaves toy_lib mix-ne-zero leaves (omega arith)

empty-IsFresh : IsFresh log_db toy_lib column_two empty_world 4
unfolding column_get
empty-IsFresh k = refl

-- The last leaf of five has no right neighbour on two levels.
verify-prove-dump_example :
    dump_prove_verify log_db toy_lib column_two empty_world 4 leaves 4 ≡ some (true, true)
verify-prove-dump_example =
    verify-prove-dump log_db toy_lib column_two empty_world 4 leaves (omega arith) (omega arith)
      empty-IsFresh 4 (omega arith) leaves-NoDefault

depth_of_five : depth_of 5 ≡ 3
unfolding depth_of
depth_of_five = refl

abbrev path : List ℕ
path = 12 ∷ 9 ∷ []

root : ℕ
unfolding verify_path combine_hash mix
root = verify_path toy_lib 0 2 11 path

path-accepted : verify toy_lib root 11 (path, 2) ≡ true
unfolding verify root mix combine_hash
path-accepted = refl

wrong_leaf-rejected : verify toy_lib root 13 (path, 2) ≡ false
unfolding verify root mix combine_hash
wrong_leaf-rejected = refl

verify_unique_example : (◌≡◌ {A = ℕ} 11 11 × (path ≡ path)) ⊎ Collision toy_lib
verify_unique_example =
    verify_unique toy_lib root 11 11 path path 2 refl path-accepted path-accepted

-- The second hash of the leaves' level.
get-dump_example :
    (do
      (dumped_root, after) ← dump log_db toy_lib column_two empty_world 4 leaves false
      (hash, a) ←
          get log_db
            (h256_serde toy_lib)
            flatten_array
            0
            (epoch_access log_db toy_lib column_two 4)
            after
            (2 ^ 3 + 1)
      some hash)
    ≡ some 12
unfolding depth_of level_from
get-dump_example =
    get-dump log_db toy_lib column_two empty_world 4 leaves 3 1 (omega arith) empty-IsFresh
      (rw depth_of_five (omega arith)) (omega arith)

-- The proof beside a zero leaf is not accepted.
verify-prove-dump_zero_example :
    dump_prove_verify log_db toy_lib column_two empty_world 4 (11 ∷ 0 ∷ []) 0 ≡ some (true, false)
unfolding combine_hash mix
verify-prove-dump_zero_example =
    verify-prove-dump_zero log_db toy_lib column_two empty_world 4 11 empty-IsFresh
