-- ===== src/Merkle/Hashing.antt =====
-- The crates `ethereum_types` and `keccak_hash`, which the program only calls, and the serialized
-- form of H256 (serde/h256.rs).
use extended_hypertrie_authe.Prelude.{ℕ, ◌<◌, ◌^◌, ◌++◌, Option, some, ◌≡◌, length, Eq, subst}
use extended_hypertrie_authe.Prelude.Options.{◌>>=◌}
use extended_hypertrie_authe.Serde.{Bytes, SerdeType, read_exact, Serde}
use extended_hypertrie_authe.Serde.Uint.{read_exact-append}

-- A type of 32-byte values with its conversions, and a hash function.
pub record HashLib : Type 1 where
  pub H256 : Type 0
  pub equality : Eq H256
  pub open equality use *
  pub default : H256
  pub as_bytes : H256 → Bytes
  pub from_slice : Bytes → H256
  pub from_low_u64_be : ℕ → H256
  pub to_low_u64_be : H256 → ℕ
  pub keccak : Bytes → H256
  pub keccak_empty : H256
  pub length-as_bytes : (h : H256) → length (as_bytes h) ≡ 32
  pub from_slice-as_bytes : (h : H256) → from_slice (as_bytes h) ≡ h
  pub to_low-from_low : (n : ℕ) → n < 2 ^ 64 → to_low_u64_be (from_low_u64_be n) ≡ n

module _ (lib : HashLib) where
  unfoldable pub write_h256 : lib.H256 → SerdeType → Bytes
  write_h256 h _ = lib.as_bytes h

  unfoldable pub read_h256 : Bytes → SerdeType → Option (lib.H256 × Bytes)
  read_h256 reader _ = do (bytes, rest) ← read_exact 32 reader; some (lib.from_slice bytes, rest)

  read_exact-as_bytes :
      (h : lib.H256) (rest : Bytes)
      → read_exact 32 (lib.as_bytes h ++ rest) ≡ some (lib.as_bytes h, rest)
  read_exact-as_bytes h rest =
      subst (λ (n : ℕ). read_exact n (lib.as_bytes h ++ rest) ≡ some (lib.as_bytes h, rest))
        (lib.length-as_bytes h) (read_exact-append (lib.as_bytes h) rest)

  pub read_h256-write_h256 :
      (h : lib.H256) (ty : SerdeType) (rest : Bytes)
      → Unit {0}
      → read_h256 (write_h256 h ty ++ rest) ty ≡ some (h, rest)
  unfolding read_h256 write_h256
  read_h256-write_h256 h ty rest _ =
      rw (read_exact-as_bytes h rest) (rw (lib.from_slice-as_bytes h))

  abbrev pub h256_serde : Serde lib.H256
  h256_serde = record {
    write = write_h256;
    read = read_h256;
    Fits = λ _. Unit {0};
    read-write = read_h256-write_h256;
  }
