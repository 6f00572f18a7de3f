-- ===== src/MultiLayer/Node.antt =====
-- multi_layer_amt/node.rs: what a tree keeps at a node, and the field element it stands for.
pub mod Words
pub mod Packing
use extended_hypertrie_authe.Prelude.{
  ℕ, zero, suc, ◌+◌, ◌-◌, ◌*◌, ◌^◌, ◌%◌, List, [], ◌∷◌, ◌++◌, Option, none, some, Bool, leb, ltb,
  length, take, drop, replicate, if◌then◌else◌,
}
use extended_hypertrie_authe.Serde.{Bytes}
use extended_hypertrie_authe.Serde.Uint.{to_le_bytes, from_le_bytes}

abbrev pub version_bits : ℕ
version_bits = 40

abbrev pub max_version_number : ℕ
max_version_number = 2 ^ version_bits - 1

-- `struct KeyVersions(Vec<u64>)`
pub record KeyVersions : Type 0 where
  pub versions : List ℕ

pub record EpochPosition : Type 0 where
  pub epoch : ℕ
  pub position : ℕ

pub record Node : Type 0 where
  pub key_versions : KeyVersions
  pub tree_version : ℕ
  pub tree_position : EpochPosition

-- `result[start..start + slice.len()].copy_from_slice(slice)`
unfoldable pub copy_from_slice : Bytes → ℕ → Bytes → Bytes
copy_from_slice result start slice =
    take start result ++ slice ++ drop (start + length slice) result

-- `&ver.to_le_bytes()[0..5]`
unfoldable pub low_bytes : ℕ → Bytes
low_bytes ver = take 5 (to_le_bytes 8 ver)

-- The loop over the key versions.
unfoldable pub copy_versions : Bytes → ℕ → List ℕ → Bytes
copy_versions result start [] = result
copy_versions result start (ver ∷ vers) =
    copy_versions (copy_from_slice result start (low_bytes ver)) (start + 5) vers

-- The 32 bytes are the four words of the `FrInt`, a number below `2 ^ 256`. `none` is the failed
-- assertion.
unfoldable pub as_fr_int : Node → Option ℕ
as_fr_int node =
    if leb (length node.key_versions.versions) 5
    then (let result = copy_versions (replicate 32 0) 5 node.key_versions.versions in
        some (from_le_bytes (copy_from_slice result 0 (low_bytes node.tree_version))))
    else none

unfoldable pub versions_from_fr_int : ℕ → ℕ → Option ℕ
versions_from_fr_int fr_int index =
    if ltb index 6
    then (let byte_array = to_le_bytes 32 fr_int in
        let slice = take ((index + 1) * 5 - index * 5) (drop (index * 5) byte_array) in
        some (from_le_bytes (copy_from_slice (replicate 8 0) 0 slice)))
    else none

-- `fr_int_pow_2` (multi_layer_amt/tree.rs): `muln` shifts to the left, and the four words keep 256
-- bits.
unfoldable pub fr_int_pow_2 : ℕ → ℕ
fr_int_pow_2 power = 2 ^ power % 2 ^ 256
