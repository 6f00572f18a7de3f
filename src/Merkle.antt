-- ===== src/Merkle.antt =====
-- asb-authdb/lvmt-db/src/merkle/mod.rs: the static Merkle tree of an epoch, and H256 of
-- serde/h256.rs.
pub mod Hashing
pub mod Levels
pub mod Dump
pub mod Prove
pub mod Sound
use Prim.Native.Nat.{bit_or, bit_xor}
use extended_hypertrie_authe.Prelude.{
  ℕ, zero, suc, ◌+◌, ◌-◌, ◌%◌, ◌^◌, List, [], ◌∷◌, ◌++◌, Option, none, some, Bool, true, false, not,
  length, leb, ◌==◌, shl, shr, if◌then◌else◌, Eq, nat_eq,
}
use extended_hypertrie_authe.Prelude.Options.{◌>>=◌}
use extended_hypertrie_authe.Storage.Backend.{KeyValueDb, DbColumn}
use extended_hypertrie_authe.Storage.Layout.{flatten_array}
use extended_hypertrie_authe.Storage.Access.{
  DbAccess, World, new as new_access, get, set_entry, flush_cache, to_be_bytes,
}
use Hashing.{HashLib, h256_serde}

-- `length.next_power_of_two().trailing_zeros()`: the least `d` with `length <= 2 ^ d`. The search
-- has `length` rounds, and `length <= 2 ^ length`.
unfoldable pub find_depth : ℕ → ℕ → ℕ → ℕ
find_depth zero d length = d
find_depth (suc rounds) d length =
    let rest = find_depth rounds (suc d) length in if leb length (2 ^ d) then d else rest

unfoldable pub depth_of : ℕ → ℕ
unfolding find_depth
depth_of length = find_depth length 0 length

module _ (lib : HashLib) where
  open lib use {H256, as_bytes, keccak, keccak_empty}

  -- `type MerkleProof = (Vec<H256>, u64)`
  abbrev pub MerkleProof : Type 0
  MerkleProof = List H256 × ℕ

  unfoldable pub combine_hash : H256 → H256 → H256
  combine_hash a b = keccak (as_bytes a ++ as_bytes b)

  unfoldable pub verify_path : ℕ → ℕ → H256 → List H256 → H256
  verify_path index pos current [] = current
  verify_path index pos current (proof ∷ path) =
      let right_append = shr pos index % 2 == 0 in
      verify_path (suc index) pos
        (if right_append then combine_hash current proof else combine_hash proof current) path

  unfoldable pub verify : H256 → H256 → MerkleProof → Bool
  unfolding verify_path
  verify root hash (merkle_path, pos) = lib.beq (verify_path 0 pos hash merkle_path) root

  -- `if this_level.len() % 2 != 0 { this_level.push(KECCAK_EMPTY) }`
  unfoldable pub pad : List H256 → List H256
  pad level = if length level % 2 == 0 then level else level ++ keccak_empty ∷ []

  -- `chunks(2)`, where a chunk of one hash would be indexed out of bounds.
  unfoldable pub combine_chunks : List H256 → Option (List H256)
  combine_chunks [] = some []
  combine_chunks (a ∷ []) = none
  combine_chunks (a ∷ b ∷ rest) = do hashes ← combine_chunks rest; some (combine_hash a b ∷ hashes)

  -- The last hash that the loop met at level 0.
  unfoldable pub root_of_level : ℕ → List H256 → H256 → H256
  root_of_level level [] root = root
  root_of_level level (hash ∷ hashes) root =
      root_of_level level hashes (if level == 0 then hash else root)

-- `struct StaticMerkleTree`
pub record StaticMerkleTree (H256 : Type 0) : Type 0 where
  pub access : DbAccess ℕ H256
  pub root : H256
  pub depth : ℕ

module _ (db : KeyValueDb) (lib : HashLib) where
  open lib use {H256, keccak_empty}

  abbrev pub Access : Type 0
  Access = DbAccess ℕ H256

  abbrev pub get_hash : Access → World db.State → ℕ → Option (H256 × Access)
  get_hash = get db (h256_serde lib) flatten_array lib.default

  unfoldable pub new : DbColumn → World db.State → ℕ → Option (StaticMerkleTree H256)
  unfolding new_access
  new column w epoch = do
    (depth, backend) ← get_hash (new_access (to_be_bytes 8 epoch) column) w 0
    (root, backend') ← get_hash backend w 1
    some (record { access = backend'; root = root; depth = lib.to_low_u64_be depth % 2 ^ 32 })

  -- The loop of `prove`, from a depth down to 1.
  unfoldable pub prove_levels : ℕ → ℕ → ℕ → Access → World db.State → Option (List H256 × Access)
  prove_levels total position zero access w = some ([], access)
  prove_levels total position (suc depth) access w = do
    let height = total - suc depth
    let index = bit_or (shl 1 (suc depth)) (bit_xor (shr position height) 1)
    (answer, access') ← get_hash access w index
    let proof = if lib.beq answer lib.default then keccak_empty else answer
    (proofs, access'') ← prove_levels total position depth access' w
    some (proof ∷ proofs, access'')

  unfoldable pub prove :
      StaticMerkleTree H256 → World db.State → ℕ → Option (MerkleProof lib × StaticMerkleTree H256)
  prove tree w position = do
    (proofs, access) ← prove_levels tree.depth position tree.depth tree.access w
    some ((proofs, position), record tree { access = access })

  -- The writes of one level, `i` being the index of the first hash that is left.
  unfoldable pub store_level : Bool → ℕ → ℕ → List H256 → Access → Access
  store_level only_root level i [] backend = backend
  store_level only_root level i (hash ∷ hashes) backend =
      store_level only_root level (suc i) hashes
        (if not only_root then set_entry backend (shl 1 level + i) hash else backend)

  -- `for level in (0..=depth).rev()`, with the number of levels that are left.
  unfoldable pub dump_levels : Bool → ℕ → List H256 → H256 → Access → Option (H256 × Access)
  dump_levels only_root zero this_level root backend = some (root, backend)
  dump_levels only_root (suc level) this_level root backend = do
    next_level ← combine_chunks lib (pad lib this_level)
    dump_levels only_root level next_level (root_of_level lib level this_level root)
        (store_level only_root level 0 this_level backend)

  unfoldable pub dump :
      DbColumn → World db.State → ℕ → List H256 → Bool → Option (H256 × World db.State)
  unfolding new_access
  dump column w epoch hashes only_root = do
    let depth = depth_of (length hashes)
    (root, backend) ←
        dump_levels only_root (suc depth) hashes lib.default
          (new_access (to_be_bytes 8 epoch) column)
    let backend' = set_entry backend 0 (lib.from_low_u64_be depth)
    let (_, w') =
        flush_cache db (h256_serde lib) flatten_array lib.default backend'
          (record w { put_mode = 3 })
    some (root, w')
