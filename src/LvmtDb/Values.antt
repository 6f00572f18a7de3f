-- ===== src/LvmtDb/Values.antt =====
-- lvmt_db.rs: the records that are stored or hashed, with their derived encodings.
use extended_hypertrie_authe.Prelude.{ℕ, ◌^◌, ◌<◌, ◌++◌, Option, some, true, ◌≡◌, length}
use extended_hypertrie_authe.Prelude.Options.{◌>>=◌}
use extended_hypertrie_authe.Serde.{Bytes, SerdeType, Serde}
use extended_hypertrie_authe.Serde.Uint.{read_uint, write_uint, read_uint-write_uint}
use extended_hypertrie_authe.Serde.Vectors.{read_bytes, write_bytes, read_bytes-write_bytes}
use extended_hypertrie_authe.Amt.Params.{Curve}
use extended_hypertrie_authe.MultiLayer.TreeName.{TreeName, write_name}
use extended_hypertrie_authe.MultiLayer.Node.{EpochPosition}
use extended_hypertrie_authe.MultiLayer.VersionTree.{VerInfo}
use mathlib.Core.List.{append_assoc}

unfoldable pub write_ver_info : VerInfo → SerdeType → Bytes
write_ver_info info ty =
    write_uint 8 info.version ty ++ (write_uint 1 info.level ty ++ write_uint 1 info.slot_index ty)

unfoldable pub read_ver_info : Bytes → SerdeType → Option (VerInfo × Bytes)
read_ver_info reader ty = do
  (version, r) ← read_uint 8 reader ty
  (level, r1) ← read_uint 1 r ty
  (slot_index, rest) ← read_uint 1 r1 ty
  some (record { version = version; level = level; slot_index = slot_index }, rest)

abbrev pub VerInfoFits : VerInfo → Type 0
VerInfoFits info = (info.version < 256 ^ 8) × ((info.level < 256 ^ 1) × (info.slot_index < 256 ^ 1))

read_ver_info-write_ver_info :
    (info : VerInfo) (ty : SerdeType) (rest : Bytes)
    → VerInfoFits info
    → read_ver_info (write_ver_info info ty ++ rest) ty ≡ some (info, rest)
unfolding read_ver_info write_ver_info
read_ver_info-write_ver_info info ty rest (v, (l, s)) =
    let version = write_uint 8 info.version ty in
    let level = write_uint 1 info.level ty in
    let slot = write_uint 1 info.slot_index ty in
    rw (append_assoc version (level ++ slot) rest) (
      rw (append_assoc level slot rest) (
        rw (read_uint-write_uint 8 info.version ty (level ++ (slot ++ rest)) v) (
          rw (read_uint-write_uint 1 info.level ty (slot ++ rest) l)
            (rw (read_uint-write_uint 1 info.slot_index ty rest s)))))

-- `struct Value`
pub record Value : Type 0 where
  pub value : Bytes
  pub version : VerInfo
  pub position : EpochPosition

unfoldable pub write_value : Value → SerdeType → Bytes
unfolding write_ver_info
write_value v ty =
    write_bytes v.value ty
    ++ (write_ver_info v.version ty
        ++ (write_uint 8 v.position.epoch ty ++ write_uint 8 v.position.position ty))

unfoldable pub read_value : Bytes → SerdeType → Option (Value × Bytes)
unfolding read_ver_info
read_value reader ty = do
  (value, r) ← read_bytes reader ty
  (version, r1) ← read_ver_info r ty
  (epoch, r2) ← read_uint 8 r1 ty
  (position, rest) ← read_uint 8 r2 ty
  some (
    record {
      value = value;
      version = version;
      position = record { epoch = epoch; position = position };
    },
    rest,
  )

abbrev pub ValueFits : Value → Type 0
ValueFits v =
    (length v.value < 256 ^ 8)
    × (VerInfoFits v.version × ((v.position.epoch < 256 ^ 8) × (v.position.position < 256 ^ 8)))

-- A value whose fields are machine words is read back, in front of anything.
pub read_value-write_value :
    (v : Value) (ty : SerdeType) (rest : Bytes)
    → ValueFits v
    → read_value (write_value v ty ++ rest) ty ≡ some (v, rest)
unfolding read_value write_value
read_value-write_value v ty rest (short, (info, (e, p))) =
    let value = write_bytes v.value ty in
    let version = write_ver_info v.version ty in
    let epoch = write_uint 8 v.position.epoch ty in
    let position = write_uint 8 v.position.position ty in
    rw (append_assoc value (version ++ (epoch ++ position)) rest) (
      rw (append_assoc version (epoch ++ position) rest) (
        rw (append_assoc epoch position rest) (
          rw (read_bytes-write_bytes v.value ty (version ++ (epoch ++ (position ++ rest))) short) (
            rw (read_ver_info-write_ver_info v.version ty (epoch ++ (position ++ rest)) info) (
              rw (read_uint-write_uint 8 v.position.epoch ty (position ++ rest) e)
                (rw (read_uint-write_uint 8 v.position.position ty rest p)))))))

abbrev pub value_serde : Serde Value
value_serde = record {
  write = write_value;
  read = read_value;
  Fits = ValueFits;
  read-write = read_value-write_value;
}

-- `struct KeyValue` and its encoding, which is hashed.
pub record KeyValue : Type 0 where
  pub key : Bytes
  pub version : VerInfo
  pub value : Bytes

unfoldable pub write_key_value : KeyValue → SerdeType → Bytes
unfolding write_ver_info
write_key_value kv ty =
    write_bytes kv.key ty ++ (write_ver_info kv.version ty ++ write_bytes kv.value ty)

unfoldable pub read_key_value : Bytes → SerdeType → Option (KeyValue × Bytes)
unfolding read_ver_info
read_key_value reader ty = do
  (key, r) ← read_bytes reader ty
  (version, r1) ← read_ver_info r ty
  (value, rest) ← read_bytes r1 ty
  some (record { key = key; version = version; value = value }, rest)

abbrev pub KeyValueFits : KeyValue → Type 0
KeyValueFits kv = (length kv.key < 256 ^ 8) × (VerInfoFits kv.version × (length kv.value < 256 ^ 8))

-- What is hashed of a key, its version and its value is read back, in front of anything, where
-- the fields are machine words: so different ones are never hashed as the same bytes.
pub read_key_value-write_key_value :
    (kv : KeyValue) (ty : SerdeType) (rest : Bytes)
    → KeyValueFits kv
    → read_key_value (write_key_value kv ty ++ rest) ty ≡ some (kv, rest)
unfolding read_key_value write_key_value
read_key_value-write_key_value kv ty rest (k, (info, v)) =
    let key = write_bytes kv.key ty in
    let version = write_ver_info kv.version ty in
    let value = write_bytes kv.value ty in
    rw (append_assoc key (version ++ value) rest) (
      rw (append_assoc version value rest) (
        rw (read_bytes-write_bytes kv.key ty (version ++ (value ++ rest)) k) (
          rw (read_ver_info-write_ver_info kv.version ty (value ++ rest) info)
            (rw (read_bytes-write_bytes kv.value ty rest v)))))

module _ (c : Curve) where
  -- `struct TreeValue` and its encoding; an affine point is written as the curve writes a point in
  -- a consensus encoding.
  pub record TreeValue : Type 0 where
    pub key : TreeName
    pub version_number : ℕ
    pub commitment : c.G

  unfoldable pub write_tree_value : TreeValue → SerdeType → Bytes
  write_tree_value tv ty =
      write_name tv.key ty
      ++ (write_uint 8 tv.version_number ty
          ++ c.serde.write tv.commitment (record { consistent = true }))
