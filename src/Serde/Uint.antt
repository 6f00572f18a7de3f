-- ===== src/Serde/Uint.antt =====
-- serde/basic.rs: the unsigned integers, little-endian.
use extended_hypertrie_authe.Prelude.{
  ℕ, zero, suc, ◌+◌, ◌*◌, ◌/◌, ◌%◌, ◌^◌, ◌<◌, [], ◌∷◌, ◌++◌, Option, some, ◌≡◌, refl, ap, subst,
  arith, length, All,
}
use extended_hypertrie_authe.Prelude.Options.{◌>>=◌}
use extended_hypertrie_authe.Serde.{Bytes, SerdeType, read_exact, Serde}
use native.Mathlib.Nat.{pow-suc}

-- `to_le_bytes` of an integer of `n` bytes; higher bits are not part of the value.
unfoldable pub to_le_bytes : ℕ → ℕ → Bytes
to_le_bytes zero v = []
to_le_bytes (suc n) v = v % 256 ∷ to_le_bytes n (v / 256)

unfoldable pub from_le_bytes : Bytes → ℕ
from_le_bytes [] = 0
from_le_bytes (b ∷ bs) = b + 256 * from_le_bytes bs

pub length-to_le_bytes : (n v : ℕ) → length (to_le_bytes n v) ≡ n
unfolding to_le_bytes
length-to_le_bytes zero v = refl
length-to_le_bytes (suc n) v = ap suc (length-to_le_bytes n (v / 256))

pow-suc_byte : (n : ℕ) → 256 ^ suc n ≡ 256 * 256 ^ n
pow-suc_byte n = omega (arith, pow-suc 256 n)

-- An integer of `n` bytes reads back.
pub from_le_bytes-to_le_bytes : (n v : ℕ) → v < 256 ^ n → from_le_bytes (to_le_bytes n v) ≡ v
unfolding from_le_bytes to_le_bytes
from_le_bytes-to_le_bytes zero v h = omega arith
from_le_bytes-to_le_bytes (suc n) v h =
    omega (arith, from_le_bytes-to_le_bytes n (v / 256) (omega (arith, pow-suc_byte n)))

pub from_le_bytes-lt : (bs : Bytes) → All (λ b. b < 256) bs → from_le_bytes bs < 256 ^ length bs
unfolding from_le_bytes
from_le_bytes-lt [] h = omega arith
from_le_bytes-lt (b ∷ bs) h = omega (arith, from_le_bytes-lt bs h.1, pow-suc_byte (length bs))

-- Bytes of an integer read back.
pub to_le_bytes-from_le_bytes :
    (bs : Bytes) → All (λ b. b < 256) bs → to_le_bytes (length bs) (from_le_bytes bs) ≡ bs
unfolding from_le_bytes to_le_bytes
to_le_bytes-from_le_bytes [] h = refl
to_le_bytes-from_le_bytes (b ∷ bs) h =
    let low : (b + 256 * from_le_bytes bs) % 256 ≡ b = omega arith in
    let high : (b + 256 * from_le_bytes bs) / 256 ≡ from_le_bytes bs = omega arith in
    rw (low, high, to_le_bytes-from_le_bytes bs h.1)

pub read_exact-append : (xs rest : Bytes) → read_exact (length xs) (xs ++ rest) ≡ some (xs, rest)
unfolding read_exact
read_exact-append [] rest = refl
read_exact-append (x ∷ xs) rest = rw (read_exact-append xs rest)

read_exact-to_le_bytes :
    (n v : ℕ) (rest : Bytes) → read_exact n (to_le_bytes n v ++ rest) ≡ some (to_le_bytes n v, rest)
read_exact-to_le_bytes n v rest =
    subst (λ (k : ℕ). read_exact k (to_le_bytes n v ++ rest) ≡ some (to_le_bytes n v, rest))
      (length-to_le_bytes n v) (read_exact-append (to_le_bytes n v) rest)

-- `impl_for_basic!` at an integer type of `n` bytes.
unfoldable pub write_uint : ℕ → ℕ → SerdeType → Bytes
unfolding to_le_bytes
write_uint n v _ = to_le_bytes n v

unfoldable pub read_uint : ℕ → Bytes → SerdeType → Option (ℕ × Bytes)
unfolding read_exact from_le_bytes
read_uint n reader _ = do (bytes, rest) ← read_exact n reader; some (from_le_bytes bytes, rest)

-- An unsigned integer of `n` bytes is read back, in front of anything.
pub read_uint-write_uint :
    (n v : ℕ) (ty : SerdeType) (rest : Bytes)
    → v < 256 ^ n
    → read_uint n (write_uint n v ty ++ rest) ty ≡ some (v, rest)
unfolding read_uint write_uint
read_uint-write_uint n v ty rest h =
    rw (read_exact-to_le_bytes n v rest) (rw (from_le_bytes-to_le_bytes n v h))

abbrev pub uint_serde : ℕ → Serde ℕ
uint_serde n = record {
  write = write_uint n;
  read = read_uint n;
  Fits = λ v. v < 256 ^ n;
  read-write = read_uint-write_uint n;
}

-- u8, u32, u64 and usize (on a 64-bit target).
abbrev pub u8_serde : Serde ℕ
u8_serde = uint_serde 1

abbrev pub u32_serde : Serde ℕ
u32_serde = uint_serde 4

abbrev pub u64_serde : Serde ℕ
u64_serde = uint_serde 8

abbrev pub usize_serde : Serde ℕ
usize_serde = uint_serde 8
