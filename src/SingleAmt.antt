-- ===== src/SingleAmt.antt =====
-- asb-authdb/lvmt-db/src/single_amt/mod.rs: one tree over the hashes of the values. `none` is a
-- panic.
use Prim.Native.Nat.{bit_and}
use extended_hypertrie_authe.Prelude.{
  ℕ, ◌+◌, ◌-◌, ◌*◌, ◌/◌, ◌%◌, ◌^◌, ◌<◌, [], ◌∷◌, ◌++◌, Option, none, some, not, leb, shl, ◌==◌, ◌≡◌,
  ◌≢◌, refl, arith, length, take, length-take, leb→le, Bool-cases, inl, inr, if◌then◌else◌, nat_eq,
}
use extended_hypertrie_authe.Prelude.Options.{◌>>=◌}
use extended_hypertrie_authe.Serde.{Bytes, SerdeType, to_bytes_local, from_bytes_local}
use extended_hypertrie_authe.Serde.Uint.{from_le_bytes}
use extended_hypertrie_authe.Serde.Vectors.{read_bytes, write_bytes, read_bytes-write_bytes}
use extended_hypertrie_authe.Storage.Backend.{insert as insert_op, KeyValueDb, DbColumn, column_get}
use extended_hypertrie_authe.Storage.Access.{World}
use extended_hypertrie_authe.Merkle.Hashing.{HashLib, read_h256, write_h256, read_h256-write_h256}
use extended_hypertrie_authe.Amt.NodeIndex.{new_index}
use extended_hypertrie_authe.Amt.Params.{Curve, AmtParams}
use extended_hypertrie_authe.Amt.Tree.{
  AmtConfig, AmTree, new_tree, set_commitment, get_data, write_versions, drop_guard, flush,
}
use mathlib.Core.List.{append_assoc}

abbrev pub root_key : Bytes
root_key = 0 ∷ 0 ∷ []

-- `index` of the height `n`: the slice is copied into eight bytes, which panics for any other
-- length; the height is under 64.
unfoldable pub key_index : ℕ → Bytes → Option ℕ
key_index n key =
    let bytes = (n + 7) / 8 in
    if not (leb bytes (length key))
    then none
    else if not (length (take bytes key) == 8)
    then none
    else some (bit_and (from_le_bytes (take bytes key)) (shl 1 n - 1))

-- Unless the height takes eight bytes of a key, which is 57 to 64, every key panics.
pub key_index-none : (n : ℕ) (key : Bytes) → (n + 7) / 8 ≢ 8 → key_index n key ≡ none
unfolding key_index
key_index-none n key h =
    let bytes = (n + 7) / 8 in
    elim (Bool-cases (leb bytes (length key))) [
      | inr e ↦ ground (arith, e)
      | inl e ↦
          let len : length (take bytes key) ≡ bytes =
            omega (arith, length-take bytes key, leb→le bytes (length key) e) in
          ground (arith, e, len, h)
    ]

module _ (lib : HashLib) where
  -- `struct Node`
  pub record HashedNode : Type 0 where
    pub bytes : Bytes
    pub hash : lib.H256

  unfoldable pub write_hashed_node : HashedNode → SerdeType → Bytes
  write_hashed_node node ty = write_bytes node.bytes ty ++ write_h256 lib node.hash ty

  unfoldable pub read_hashed_node : Bytes → SerdeType → Option (HashedNode × Bytes)
  read_hashed_node reader ty = do
    (bytes, r) ← read_bytes reader ty
    (hash, rest) ← read_h256 lib r ty
    some (record { bytes = bytes; hash = hash }, rest)

  -- A node whose bytes have the length of a machine word is read back, in front of anything.
  pub read_hashed_node-write_hashed_node :
      (node : HashedNode) (ty : SerdeType) (rest : Bytes)
      → length node.bytes < 256 ^ 8
      → read_hashed_node (write_hashed_node node ty ++ rest) ty ≡ some (node, rest)
  unfolding read_hashed_node write_hashed_node
  read_hashed_node-write_hashed_node node ty rest h =
      let hash = write_h256 lib node.hash ty in
      rw (append_assoc (write_bytes node.bytes ty) hash rest) (
        rw (read_bytes-write_bytes node.bytes ty (hash ++ rest) h)
          (rw (read_h256-write_h256 lib node.hash ty rest tt)))

  -- The four words of the hash, the highest cut to 30 bits.
  unfoldable pub hash_fr_int : HashedNode → Option ℕ
  hash_fr_int node =
      let result = from_le_bytes (lib.as_bytes node.hash) in
      some (result % 2 ^ 192 + bit_and (result / 2 ^ 192) 0x3fffffff * 2 ^ 192)

  -- `AMTConfig<N>`; the name of the tree writes nothing.
  abbrev pub single_config : (c : Curve) → ℕ → AmtConfig c
  single_config c n = record {
    Name = Unit {0};
    name_serde = record {
      write = λ _ _. [];
      read = λ reader _. some (tt, reader);
      Fits = λ _. Unit {0};
      read-write = λ _ _ rest _. refl;
    };
    Data = HashedNode;
    data_serde = record {
      write = write_hashed_node;
      read = read_hashed_node;
      Fits = λ node. length node.bytes < 256 ^ 8;
      read-write = read_hashed_node-write_hashed_node;
    };
    default_data = record { bytes = []; hash = lib.default };
    as_fr_int = hash_fr_int;
    depths = n;
  }

  module _ (c : Curve) (n : ℕ) where
    -- `struct AmtDB`
    pub record AmtDb : Type 0 where
      pub root : c.G
      pub amt : AmTree c (single_config c n)

    module _ (db : KeyValueDb) where
      unfoldable pub new_amt_db : World db.State → Option (ℕ × ℕ) → Option AmtDb
      new_amt_db w shard_node = do
        let db_col : DbColumn = record { col = 0 }
        root ← elim (column_get db db_col w.store root_key) [
          | none ↦ some c.zero_point
          | some x ↦ from_bytes_local c.serde x
        ]
        shard_root ← elim shard_node [
          | none ↦ some none
          | some info ↦ (do node ← new_index n info.0 info.1; some (some node))
        ]
        let amt = new_tree c (single_config c n) tt db_col shard_root
        some (record { root = root; amt = set_commitment c (single_config c n) amt root })

      unfoldable pub get_bytes : AmtDb → World db.State → Bytes → Option (Option Bytes × AmtDb)
      unfolding key_index
      get_bytes d w key = do
        index ← key_index n key
        (node, amt) ← get_data c (single_config c n) db d.amt w index
        some (
          if lib.beq node.hash lib.default then none else some node.bytes,
          record d { amt = amt },
        )

      module _ (pp : AmtParams c) (r : ℕ) where
        unfoldable pub set_bytes : AmtDb → World db.State → Bytes → Bytes → Option AmtDb
        unfolding key_index
        set_bytes d w key value = do
          let new_node : HashedNode = record { bytes = value; hash = lib.keccak value }
          index ← key_index n key
          (old, amt) ← write_versions c (single_config c n) db d.amt w index
          amt' ← drop_guard c (single_config c n) db pp r amt w index old new_node
          some (record d { amt = amt' })

        unfoldable pub commit_root :
            AmtDb → World db.State → Option (c.G × (AmtDb × World db.State))
        commit_root d w = do
          ((root, amt), w') ← flush c (single_config c n) db d.amt w
          let ops = insert_op 0 root_key (to_bytes_local c.serde root) ∷ []
          let store = db.flush (db.write_buffered w'.store ops)
          some (root, (record { root = root; amt = amt }, record w' { store = store }))
