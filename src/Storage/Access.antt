-- ===== src/Storage/Access.antt =====
-- storage/access.rs: `DBAccess`, a write-back cache over a column.
mod Keys
pub mod View
pub mod Flush
use extended_hypertrie_authe.Prelude.{
  ℕ, ◌+◌, ◌%◌, ◌^◌, List, [], ◌∷◌, ◌++◌, reverse, Option, none, some, Bool, true, false, ◌≡◌,
  length, get_or, set, if◌then◌else◌, Eq,
}
use extended_hypertrie_authe.Prelude.Maps.{Assoc, lookup, insert}
use extended_hypertrie_authe.Prelude.Options.{◌>>=◌}
use extended_hypertrie_authe.Serde.{Bytes, Serde, to_bytes_local, from_bytes_local}
use extended_hypertrie_authe.Serde.Uint.{to_le_bytes}
use extended_hypertrie_authe.Storage.Backend.{
  DbOp, insert as insert_op, KeyValueDb, DbColumn, column_get, column_write_buffered,
}
use extended_hypertrie_authe.Storage.Layout.{Layout}

-- `struct DBAccess`, less the handle of the column's database.
pub record DbAccess (K V : Type 0) : Type 0 where
  pub prefix : Bytes
  pub column : DbColumn
  pub cache : Assoc K (V × Bool)

-- The database, and the global counters `PUT_COUNT` and `PUT_MODE`.
pub record World (State : Type 0) : Type 0 where
  pub store : State
  pub put_count : List ℕ
  pub put_mode : ℕ

-- `to_be_bytes` of an integer of `n` bytes.
unfoldable pub to_be_bytes : ℕ → ℕ → Bytes
unfolding to_le_bytes
to_be_bytes n v = reverse (to_le_bytes n v)

module _ {K V : Type 0} where
  unfoldable pub new : Bytes → DbColumn → DbAccess K V
  new prefix column = record { prefix = prefix; column = column; cache = [] }

module _ {K : Type 0} (l : Layout K) where
  -- The cast `as u32`, then the bytes from the highest.
  unfoldable pub compute_key : Bytes → K → Bytes
  compute_key name node_index = name ++ to_be_bytes 4 (l.position node_index % 2 ^ 32)

module _ {K V : Type 0} (s : Serde V) (l : Layout K) where
  -- The dirty entries of the cache, in the order of its iteration.
  unfoldable pub dirty_ops : Bytes → Assoc K (V × Bool) → List DbOp
  dirty_ops prefix [] = []
  dirty_ops prefix ((key, (value, dirty)) ∷ cache) =
      let rest = dirty_ops prefix cache in
      if dirty then insert_op 0 (compute_key l prefix key) (to_bytes_local s value) ∷ rest else rest

module _ {V : Type 0} (s : Serde V) (default : V) where
  unfoldable pub decode : Option Bytes → Option V
  decode (some x) = from_bytes_local s x
  decode none = some default

module _ {K V : Type 0} ⦃e : Eq K⦄ where
  -- `set`
  unfoldable pub set_entry : DbAccess K V → K → V → DbAccess K V
  set_entry a node_index value = record a { cache = insert node_index (value, true) a.cache }

module _ (db : KeyValueDb) {K V : Type 0} ⦃e : Eq K⦄ (s : Serde V) (l : Layout K)
    (default : V) where
  -- The closure of `or_insert_with`: an entry that does not decode is a panic.
  unfoldable pub load : DbAccess K V → World db.State → K → Option V
  unfolding decode
  load a w node_index =
      decode s default (column_get db a.column w.store (compute_key l a.prefix node_index))

  -- `entry(..).or_insert_with(..)`: the entry, and the access with the entry in its cache.
  unfoldable pub ensure_cached :
      DbAccess K V → World db.State → K → Option ((V × Bool) × DbAccess K V)
  ensure_cached a w node_index = elim (lookup node_index a.cache) [
    | some entry ↦ some (entry, a)
    | none ↦ (do
      value ← load a w node_index
      some ((value, false), record a { cache = insert node_index (value, false) a.cache }))
  ]

  unfoldable pub get : DbAccess K V → World db.State → K → Option (V × DbAccess K V)
  get a w node_index = do ((value, _), a') ← ensure_cached a w node_index; some (value, a')

  -- `get_mut`, with what the caller writes through the reference.
  unfoldable pub get_mut : DbAccess K V → World db.State → K → (V → V) → Option (DbAccess K V)
  get_mut a w node_index write = do
    ((value, _), a') ← ensure_cached a w node_index
    some (record a' { cache = insert node_index (write value, true) a'.cache })

  unfoldable pub flush_cache : DbAccess K V → World db.State → DbAccess K V × World db.State
  flush_cache a w =
      let ops = dirty_ops s l a.prefix a.cache in
      (
        record a { cache = [] },
        record w {
          store = column_write_buffered db a.column w.store ops;
          put_count =
              set w.put_count w.put_mode ((get_or w.put_count w.put_mode 0 + length ops) % 2 ^ 64);
        },
      )
