-- ===== src/Checks/SerdeRuns.antt =====
-- The serialisation at concrete values.
use extended_hypertrie_authe.Prelude.{[], ◌∷◌, ◌++◌, some, false, ◌≡◌, refl, arith}
use extended_hypertrie_authe.Serde.{Bytes, SerdeType}
use extended_hypertrie_authe.Serde.Uint.{write_uint, u64_serde, to_le_bytes}
use extended_hypertrie_authe.Serde.Vectors.{read_vec, write_vec, read_vec-write_vec, write_items}
use extended_hypertrie_authe.MultiLayer.TreeName.{
  TreeName, read_name, write_name, read_name-write_name,
}

abbrev local : SerdeType
local = record { consistent = false }

abbrev three : Bytes
three = 1 ∷ 2 ∷ 255 ∷ []

read_vec-write_vec_example :
    read_vec u64_serde (write_vec u64_serde three local ++ 9 ∷ []) local ≡ some (three, 9 ∷ [])
read_vec-write_vec_example =
    read_vec-write_vec u64_serde three local (9 ∷ []) (omega arith)
      (omega arith, (omega arith, (omega arith, tt)))

abbrev deep : TreeName
deep = record { path = 1 ∷ 2 ∷ 3 ∷ [] }

read_name-write_name_example :
    read_name (write_name deep local ++ 9 ∷ []) local ≡ some (deep, 9 ∷ [])
read_name-write_name_example =
    read_name-write_name deep local (9 ∷ []) (omega arith)
      (omega arith, (omega arith, (omega arith, tt)))

-- The test of name.rs.
name_of_one : write_name (record { path = 1 ∷ [] }) local ≡ 1 ∷ 1 ∷ 0 ∷ 0 ∷ 0 ∷ []
unfolding write_name write_uint to_le_bytes write_items
name_of_one = refl
