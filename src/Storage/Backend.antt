-- ===== src/Storage/Backend.antt =====
-- The crate `kvdb`, which the program only calls, and `DBColumn` (storage/kvdb.rs).
use extended_hypertrie_authe.Prelude.{
  ℕ, List, [], ◌∷◌, map, Option, none, some, ◌≡◌, Bool, ◌&&◌, ◌==◌, if◌then◌else◌, list_beq,
}
use extended_hypertrie_authe.Serde.{Bytes}

-- `kvdb::DBOp`
pub data DbOp : Type 0 where
  insert : ℕ → Bytes → Bytes → DbOp
  delete : ℕ → Bytes → DbOp

-- What one operation, and then a transaction, leaves at a key of a column.
abbrev hits : ℕ → Bytes → ℕ → Bytes → Bool
hits c k col key = c == col && list_beq k key

abbrev pub after_op : DbOp → ℕ → Bytes → Option Bytes → Option Bytes
after_op (insert c k v) col key old = if hits c k col key then some v else old
after_op (delete c k) col key old = if hits c k col key then none else old

abbrev pub after_ops : List DbOp → ℕ → Bytes → Option Bytes → Option Bytes
after_ops [] col key old = old
after_ops (op ∷ ops) col key old = after_ops ops col key (after_op op col key old)

-- `kvdb::KeyValueDB`: reads see what was written to the buffer, in the order of the operations,
-- and a flush changes nothing that a read shows. An I/O error of a read is not modelled.
pub record KeyValueDb : Type 1 where
  pub State : Type 0
  pub get : State → ℕ → Bytes → Option Bytes
  pub write_buffered : State → List DbOp → State
  pub flush : State → State
  pub get-write_buffered :
      (s : State) (ops : List DbOp) (col : ℕ) (key : Bytes)
      → get (write_buffered s ops) col key ≡ after_ops ops col key (get s col key)
  pub get-flush : (s : State) (col : ℕ) (key : Bytes) → get (flush s) col key ≡ get s col key

-- `struct DBColumn`; the shared handle `db` is the state that every operation takes.
pub record DbColumn : Type 0 where
  pub col : ℕ

unfoldable pub set_col : ℕ → DbOp → DbOp
set_col col (insert _ key value) = insert col key value
set_col col (delete _ key) = delete col key

module _ (db : KeyValueDb) where
  unfoldable pub column_get : DbColumn → db.State → Bytes → Option Bytes
  column_get column s key = db.get s column.col key

  -- Every operation is sent to the column, whatever column it names.
  unfoldable pub column_write_buffered : DbColumn → db.State → List DbOp → db.State
  unfolding set_col
  column_write_buffered column s ops = db.write_buffered s (map (set_col column.col) ops)
