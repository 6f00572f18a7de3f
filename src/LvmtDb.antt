-- ===== src/LvmtDb.antt =====
-- asb-authdb/lvmt-db/src/lvmt_db.rs: the database. `none` is a panic, or the error of an entry that
-- does not decode.
pub mod Values
pub mod Proofs
pub mod Reads
pub mod Writes
use extended_hypertrie_authe.Prelude.{
  ℕ, zero, suc, ◌+◌, ◌%◌, ◌^◌, List, [], ◌∷◌, ◌++◌, Option, none, some, Bool, true, false, length,
  list_eq, Eq, map,
}
use extended_hypertrie_authe.Prelude.Maps.{Assoc, lookup, insert}
use extended_hypertrie_authe.Prelude.Options.{◌>>=◌}
use extended_hypertrie_authe.Serde.{Bytes, SerdeType, to_bytes_local, from_bytes_local}
use extended_hypertrie_authe.Serde.Uint.{u64_serde}
use extended_hypertrie_authe.Storage.Backend.{
  DbOp, insert as insert_op, KeyValueDb, DbColumn, column_get, column_write_buffered,
}
use extended_hypertrie_authe.Storage.Access.{World}
use extended_hypertrie_authe.Merkle.Hashing.{HashLib}
use extended_hypertrie_authe.Merkle.{dump}
use extended_hypertrie_authe.Amt.NodeIndex.{NodeIndex, new_index}
use extended_hypertrie_authe.Amt.Params.{Curve, AmtParams}
use extended_hypertrie_authe.MultiLayer.Key.{Key}
use extended_hypertrie_authe.MultiLayer.VersionTree.{VerInfo, VersionTree}
use extended_hypertrie_authe.MultiLayer.VersionTree.Visit.{new_forest, inc_key_ver}
use extended_hypertrie_authe.MultiLayer.VersionTree.Commit.{commit as commit_forest, flush_all}
use Values.{Value, value_serde, KeyValue, write_key_value, TreeValue, write_tree_value}

abbrev pub col_ver_tree : DbColumn
col_ver_tree = record { col = 0 }

abbrev pub col_key_new : DbColumn
col_key_new = record { col = 1 }

abbrev pub col_merkle : DbColumn
col_merkle = record { col = 2 }

abbrev pub epoch_number_key : Bytes
epoch_number_key = 0 ∷ 0 ∷ []

abbrev pub consensus : SerdeType
consensus = record { consistent = true }

module _ (c : Curve) (depths : ℕ) where
  -- `struct LvmtDB`, less the handle of the database and `dirty_guard`, which no code reads. The
  -- keys of the cache are the bytes of the keys.
  pub record LvmtDb : Type 0 where
    pub version_tree : VersionTree c depths
    pub cache : Assoc Bytes (Option Value × Bool)
    pub uncommitted_key_values : List (Key × Bytes)
    pub only_merkle_root : Bool

module _ (c : Curve) (depths : ℕ) (db : KeyValueDb) where
  -- `LvmtDB::new`
  unfoldable pub new_db : World db.State → Bool → Option (ℕ × ℕ) → Option (LvmtDb c depths)
  new_db w only_merkle_root shard_info = do
    shard_node ← elim shard_info [
      | none ↦ some none
      | some info ↦ (do node ← new_index depths info.0 info.1; some (some node))
    ]
    version_tree ← new_forest c depths db col_ver_tree w shard_node
    some (record {
      version_tree = version_tree;
      cache = [];
      uncommitted_key_values = [];
      only_merkle_root = only_merkle_root;
    })

  -- The value of a key in its column.
  unfoldable pub stored_value : World db.State → Key → Option (Option Value)
  stored_value w key = elim (column_get db col_key_new w.store key.bytes) [
    | none ↦ some none
    | some x ↦ (do value ← from_bytes_local value_serde x; some (some value))
  ]

  -- The value of a key: the cached one, or that of the column.
  unfoldable pub current_value : LvmtDb c depths → World db.State → Key → Option (Option Value)
  unfolding stored_value
  current_value d w key = elim (lookup key.bytes d.cache) [
    | some entry ↦ some entry.0
    | none ↦ stored_value w key
  ]

  unfoldable pub get_value :
      LvmtDb c depths → World db.State → Key → Option (Option Bytes × LvmtDb c depths)
  unfolding stored_value
  get_value d w key = do
    (maybe_value, d') ← elim (lookup key.bytes d.cache) [
      | some entry ↦ some (entry.0, d)
      | none ↦ (do
        value ← stored_value w key
        some (value, record d { cache = insert key.bytes (value, false) d.cache }))
    ]
    some (elim maybe_value [ none ↦ none | some v ↦ some v.value ], d')

  unfoldable pub set_value : LvmtDb c depths → Key → Bytes → LvmtDb c depths
  set_value d key value = record d {
    uncommitted_key_values = d.uncommitted_key_values ++ (key, value) ∷ [];
  }

  unfoldable pub current_epoch : World db.State → Option ℕ
  current_epoch w = elim (column_get db col_merkle w.store epoch_number_key) [
    | none ↦ some 0
    | some x ↦ from_bytes_local u64_serde x
  ]

  module _ (lib : HashLib) (pp : AmtParams c) (r : ℕ) where
    -- The loop of `commit` over the uncommitted values: the write of each, and its hash. The cache
    -- and the column are those from before the commit, for every position.
    unfoldable pub commit_values :
        LvmtDb c depths
        → World db.State
        → ℕ
        → ℕ
        → VersionTree c depths
        → List (Key × Bytes)
        → Option (VersionTree c depths × (List DbOp × List lib.H256))
    unfolding current_value
    commit_values d w epoch position vt [] = some (vt, ([], []))
    commit_values d w epoch position vt ((key, bytes) ∷ items) = do
      last ← current_value d w key
      (version, vt') ←
          inc_key_ver c depths db pp r vt w key
            (elim last [ none ↦ none | some v ↦ some v.version ])
      let value : Value = record {
        value = bytes;
        version = version;
        position = record { epoch = epoch; position = position };
      }
      let write = insert_op 0 key.bytes (to_bytes_local value_serde value)
      let hash =
          lib.keccak (
            write_key_value (record { key = key.bytes; version = version; value = bytes })
              consensus)
      (vt'', (write_ops, hashes)) ← commit_values d w epoch (suc position) vt' items
      some (vt'', (write ∷ write_ops, hash ∷ hashes))

    unfoldable pub tree_hash : TreeValue c → lib.H256
    tree_hash tv = lib.keccak (write_tree_value c tv consensus)

    unfoldable pub commit_db :
        LvmtDb c depths
        → World db.State
        → Option ((c.G × lib.H256) × (LvmtDb c depths × World db.State))
    unfolding commit_values tree_hash current_epoch
    commit_db d w = do
      epoch ← current_epoch w
      (vt, (write_ops, hashes)) ← commit_values d w epoch 0 d.version_tree d.uncommitted_key_values
      let w1 : World db.State = record w {
        store = column_write_buffered db col_key_new w.store write_ops;
      }
      ((amt_root, updates), (vt', w2)) ← commit_forest c depths db pp r vt w1 epoch (length hashes)
      let tree_hashes =
          map (λ u. tree_hash (record { key = u.0; version_number = u.1.0; commitment = u.1.1 }))
            updates
      (merkle_root, w3) ← dump db lib col_merkle w2 epoch (hashes ++ tree_hashes) d.only_merkle_root
      let ops = insert_op 0 epoch_number_key (to_bytes_local u64_serde (epoch + 1)) ∷ []
      let store = column_write_buffered db col_merkle w3.store ops
      some (
        (amt_root, merkle_root),
        (
          record d { version_tree = vt'; cache = []; uncommitted_key_values = [] },
          record w3 { store = db.flush store },
        ),
      )

    unfoldable pub flush_root :
        LvmtDb c depths → World db.State → Option (LvmtDb c depths × World db.State)
    flush_root d w = do
      (vt, w') ← flush_all c depths db pp r d.version_tree w
      some (record d { version_tree = vt }, record w' { store = db.flush w'.store })
