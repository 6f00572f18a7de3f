-- ===== src/Serde.antt =====
-- asb-authdb/lvmt-db/src/serde: `MyToBytes` and `MyFromBytes`. A reader is the list of the bytes
-- that are left; `none` is the error of a reader that ends too early.
pub mod Uint
pub mod Vectors
pub mod BigEndian
use extended_hypertrie_authe.Prelude.{
  ℕ, zero, suc, List, [], ◌∷◌, ◌++◌, Option, none, some, Bool, true, false, ◌≡◌,
}
use extended_hypertrie_authe.Prelude.Options.{◌>>=◌}

abbrev pub Bytes : Type 0
Bytes = List ℕ

-- `struct SerdeType { consistent }`
pub record SerdeType : Type 0 where
  pub consistent : Bool

-- `Read::read_exact` into a buffer of `n` bytes.
unfoldable pub read_exact : ℕ → Bytes → Option (Bytes × Bytes)
read_exact zero r = some ([], r)
read_exact (suc n) [] = none
read_exact (suc n) (b ∷ r) = do (bs, rest) ← read_exact n r; some (b ∷ bs, rest)

-- The two traits at a type. `Fits` holds of the values that the type's machine words represent.
pub record Serde (V : Type 0) : Type 1 where
  pub write : V → SerdeType → Bytes
  pub read : Bytes → SerdeType → Option (V × Bytes)
  pub Fits : V → Type 0
  pub read-write :
      (v : V) (ty : SerdeType) (rest : Bytes)
      → Fits v
      → read (write v ty ++ rest) ty ≡ some (v, rest)

abbrev local_type : SerdeType
local_type = record { consistent = false }

abbrev consensus_type : SerdeType
consensus_type = record { consistent = true }

module _ {V : Type 0} (s : Serde V) where
  unfoldable pub to_bytes : V → SerdeType → Bytes
  to_bytes v ty = s.write v ty

  -- What is left of the slice after the value is ignored.
  unfoldable pub from_bytes : Bytes → SerdeType → Option V
  from_bytes bytes ty = do (v, rest) ← s.read bytes ty; some v

  unfoldable pub to_bytes_local : V → Bytes
  unfolding to_bytes
  to_bytes_local v = to_bytes v local_type

  unfoldable pub from_bytes_local : Bytes → Option V
  unfolding from_bytes
  from_bytes_local bytes = from_bytes bytes local_type

  unfoldable pub to_bytes_consensus : V → Bytes
  unfolding to_bytes
  to_bytes_consensus v = to_bytes v consensus_type

  unfoldable pub from_bytes_consensus : Bytes → Option V
  unfolding from_bytes
  from_bytes_consensus bytes = from_bytes bytes consensus_type
