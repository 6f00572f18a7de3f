-- ===== src/Checks/StorageRuns.antt =====
-- The cached access at concrete entries.
use extended_hypertrie_authe.Prelude.{ℕ, ◌+◌, [], ◌∷◌, some, true, false, ◌≡◌, refl, arith, nat_eq}
use extended_hypertrie_authe.Prelude.Maps.{lookup}
use extended_hypertrie_authe.Prelude.Options.{◌>>=◌}
use extended_hypertrie_authe.Serde.Uint.{u64_serde}
use extended_hypertrie_authe.Storage.Backend.{column_get}
use extended_hypertrie_authe.Storage.Layout.{flatten_array}
use extended_hypertrie_authe.Storage.Access.{DbAccess, new, load, get_mut, flush_cache, decode}
use extended_hypertrie_authe.Storage.Access.View.{view, IsCoherent}
use extended_hypertrie_authe.Storage.Access.Flush.{view-new-flush_cache, view-flush_cache-get_mut}
use extended_hypertrie_authe.Checks.Toy.{log_db, empty_world, column_two}

abbrev written : DbAccess ℕ ℕ
written = record {
  prefix = 1 ∷ [];
  column = column_two;
  cache = (3, (300, true)) ∷ (4, (0, false)) ∷ [];
}

written-IsCoherent : IsCoherent log_db u64_serde flatten_array 0 written empty_world
unfolding lookup load decode column_get
written-IsCoherent = record {
  is_map = (refl, (refl, tt));
  fits = omega arith;
  clean = λ k v h. ground arith;
}

view-new-flush_cache_example :
    view log_db u64_serde flatten_array 0
      (new (1 ∷ []) column_two)
      (flush_cache log_db u64_serde flatten_array 0 written empty_world).1
      3
    ≡ view log_db u64_serde flatten_array 0 written empty_world 3
unfolding new
view-new-flush_cache_example =
    view-new-flush_cache log_db u64_serde flatten_array 0 written empty_world 3 (omega arith)
      written-IsCoherent

-- An entry of the cache is written, and flushed with another one.
view-flush_cache-get_mut_example :
    (do
      a ← get_mut log_db u64_serde flatten_array 0 written empty_world 3 (λ n. n + 5)
      view log_db u64_serde flatten_array 0
          (new (1 ∷ []) column_two)
          (flush_cache log_db u64_serde flatten_array 0 a empty_world).1
          3)
    ≡ some 305
unfolding view lookup load decode column_get
view-flush_cache-get_mut_example =
    view-flush_cache-get_mut log_db u64_serde flatten_array 0 written empty_world 3 (λ n. n + 5) 3
      (omega arith) (omega arith) (λ v h. ground arith) written-IsCoherent
