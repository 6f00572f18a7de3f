-- ===== src/Checks/DbRuns.antt =====
-- The database at concrete values: a read, and the write of one value.
use extended_hypertrie_authe.Prelude.{ℕ, [], ◌∷◌, ◌++◌, some, false, ◌≡◌, refl, arith}
use extended_hypertrie_authe.Prelude.Maps.{lookup}
use extended_hypertrie_authe.Prelude.Options.{◌>>=◌}
use extended_hypertrie_authe.Serde.{Bytes, to_bytes_local}
use extended_hypertrie_authe.Storage.Backend.{DbOp, insert as insert_op, column_get}
use extended_hypertrie_authe.MultiLayer.Key.{Key}
use extended_hypertrie_authe.LvmtDb.{
  LvmtDb, get_value, current_value, stored_value, commit_values, consensus,
}
use extended_hypertrie_authe.LvmtDb.Values.{
  Value, value_serde, KeyValue, read_key_value, write_key_value, read_key_value-write_key_value,
}
use extended_hypertrie_authe.LvmtDb.Reads.{value_of, get_value-current_value}
use extended_hypertrie_authe.LvmtDb.Writes.{AreWrites, commit_values-AreWrites}
use extended_hypertrie_authe.Checks.Toy.{log_db, toy_lib, empty_world}
use extended_hypertrie_authe.Checks.TreeRuns.{plain}
use extended_hypertrie_authe.Checks.ForestRuns.{key, few, start, after, first, ran-eq}

abbrev other : Key
other = record { bytes = 9 ∷ [] }

abbrev old : Value
old = record { value = 5 ∷ []; version = first; position = record { epoch = 0; position = 0 } }

abbrev empty_db : LvmtDb plain 8
empty_db = record {
  version_tree = start;
  cache = [];
  uncommitted_key_values = (key, 7 ∷ []) ∷ [];
  only_merkle_root = false;
}

abbrev cached_db : LvmtDb plain 8
cached_db = record empty_db { cache = (other.bytes, (some old, false)) ∷ [] }

get_value-current_value_example :
    ((get_value plain 8 log_db cached_db empty_world key >>= λ p. some p.0)
      ≡ (current_value plain 8 log_db cached_db empty_world key >>= λ v. some (value_of v)))
    × ((get_value plain 8 log_db cached_db empty_world key >>= λ p.
          current_value plain 8 log_db p.1 empty_world other)
        ≡ (current_value plain 8 log_db cached_db empty_world key >>= λ v.
            current_value plain 8 log_db cached_db empty_world other))
get_value-current_value_example =
    get_value-current_value plain 8 log_db cached_db empty_world key other

abbrev written : DbOp
written = insert_op 0 key.bytes (
    to_bytes_local value_serde
      (record { value = 7 ∷ []; version = first; position = record { epoch = 0; position = 0 } }))

abbrev hashed : ℕ
hashed =
    toy_lib.keccak
      (write_key_value (record { key = key.bytes; version = first; value = 7 ∷ [] }) consensus)

committed :
    commit_values plain 8 log_db toy_lib few 1 empty_db empty_world 0 0 start ((key, 7 ∷ []) ∷ [])
    ≡ some (after, (written ∷ [], hashed ∷ []))
unfolding commit_values current_value stored_value column_get lookup
committed = rw ran-eq refl

commit_values-AreWrites_example :
    AreWrites toy_lib 0 0 ((key, 7 ∷ []) ∷ []) (written ∷ []) (hashed ∷ [])
commit_values-AreWrites_example =
    commit_values-AreWrites plain 8 log_db toy_lib few 1 empty_db empty_world 0 0
      ((key, 7 ∷ []) ∷ []) start after (written ∷ []) (hashed ∷ []) committed

abbrev tail : Bytes
tail = 4 ∷ []

abbrev pair : KeyValue
pair = record { key = 1 ∷ 2 ∷ []; version = first; value = 7 ∷ [] }

read_key_value-write_key_value_example :
    read_key_value (write_key_value pair consensus ++ tail) consensus ≡ some (pair, tail)
read_key_value-write_key_value_example =
    read_key_value-write_key_value pair consensus tail
      (omega arith, ((omega arith, (omega arith, omega arith)), omega arith))
