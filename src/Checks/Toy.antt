-- ===== src/Checks/Toy.antt =====
-- A backend that keeps the list of its operations, and a hash library over the numbers.
use extended_hypertrie_authe.Prelude.{
  ℕ, ◌+◌, ◌*◌, ◌%◌, List, [], ◌∷◌, ◌++◌, Option, none, ◌≡◌, ◌≢◌, refl, arith, replicate, get_or,
  nat_eq,
}
use extended_hypertrie_authe.Serde.{Bytes}
use extended_hypertrie_authe.Storage.Backend.{DbOp, after_op, after_ops, KeyValueDb, DbColumn}
use extended_hypertrie_authe.Storage.Access.{World}
use extended_hypertrie_authe.Merkle.Hashing.{HashLib}

pub after_ops-append :
    (ops more : List DbOp) (col : ℕ) (key : Bytes) (old : Option Bytes)
    → after_ops (ops ++ more) col key old ≡ after_ops more col key (after_ops ops col key old)
after_ops-append [] more col key old = refl
after_ops-append (op ∷ ops) more col key old =
    after_ops-append ops more col key (after_op op col key old)

abbrev pub log_db : KeyValueDb
log_db = record {
  State = List DbOp;
  get = λ s col key. after_ops s col key none;
  write_buffered = λ s ops. s ++ ops;
  flush = λ s. s;
  get-write_buffered = λ s ops col key. after_ops-append s ops col key none;
  get-flush = λ s col key. refl;
}

unfoldable pub mix : Bytes → ℕ
mix [] = 1
mix (b ∷ bytes) = (b + 257 * mix bytes) % 65521 + 1

pub mix-ne-zero : (bytes : Bytes) → mix bytes ≢ 0
unfolding mix
mix-ne-zero [] = omega arith
mix-ne-zero (b ∷ bytes) = omega arith

abbrev pub toy_lib : HashLib
toy_lib = record {
  H256 = ℕ;
  equality = nat_eq;
  default = 0;
  as_bytes = λ h. h ∷ replicate 31 0;
  from_slice = λ bytes. get_or bytes 0 0;
  from_low_u64_be = λ n. n;
  to_low_u64_be = λ h. h;
  keccak = mix;
  keccak_empty = 7;
  length-as_bytes = λ h. refl;
  from_slice-as_bytes = λ h. refl;
  to_low-from_low = λ n h. refl;
}

abbrev pub empty_world : World (List DbOp)
empty_world = record { store = []; put_count = 0 ∷ 0 ∷ 0 ∷ 0 ∷ []; put_mode = 0 }

abbrev pub column_two : DbColumn
column_two = record { col = 2 }
