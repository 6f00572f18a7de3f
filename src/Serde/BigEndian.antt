-- ===== src/Serde/BigEndian.antt =====
-- Big-endian integers: `to_be_bytes` and `from_be_bytes` of the standard library.
use extended_hypertrie_authe.Prelude.{
  ℕ, zero, suc, ◌+◌, ◌*◌, ◌/◌, ◌^◌, ◌<◌, [], ◌∷◌, ◌++◌, reverse, ◌≡◌, refl, ap, ap₂, sym, ◌∙◌,
  arith, length, length-append, All, pow-add,
}
use extended_hypertrie_authe.Serde.{Bytes}
use extended_hypertrie_authe.Serde.Uint.{from_le_bytes}
use mathlib.Core.List.{reverse-append}
use native.Mathlib.Nat.{pow-suc, mul-add-div_right, div-eq_of_lt}

unfoldable pub from_be_bytes : Bytes → ℕ
unfolding from_le_bytes
from_be_bytes bytes = from_le_bytes (reverse bytes)

-- The value by a recursion from the highest byte.
unfoldable pub be_value : Bytes → ℕ
be_value [] = 0
be_value (b ∷ bytes) = b * 256 ^ length bytes + be_value bytes

pow-suc_byte : (n : ℕ) → 256 ^ suc n ≡ 256 * 256 ^ n
pow-suc_byte n = omega (arith, pow-suc 256 n)

pow-add_byte : (a b : ℕ) → 256 ^ (a + b) ≡ 256 ^ a * 256 ^ b
pow-add_byte a zero = let e : a + 0 ≡ a = omega arith in rw e (omega arith)
pow-add_byte a (suc b) =
    let e : a + suc b ≡ suc (a + b) = omega arith in
    rw e (
      omega (
        arith,
        pow-suc_byte (a + b),
        ap (λ (t : ℕ). 256 ^ a * t) (pow-suc_byte b),
        pow-add_byte a b,
      ))

-- A shift by `8 * n` drops `n` bytes.
pub pow-byte : (n : ℕ) → 2 ^ (8 * n) ≡ 256 ^ n
pow-byte zero = refl
pow-byte (suc n) =
    let e : 8 * suc n ≡ 8 * n + 8 = omega arith in
    rw e (omega (arith, pow-add (8 * n) 8, pow-byte n, pow-suc_byte n))

pub from_le_bytes-append :
    (xs ys : Bytes)
    → from_le_bytes (xs ++ ys) ≡ from_le_bytes xs + 256 ^ length xs * from_le_bytes ys
unfolding from_le_bytes
from_le_bytes-append [] ys = omega arith
from_le_bytes-append (x ∷ xs) ys = omega (
  arith,
  from_le_bytes-append xs ys,
  ap (λ (t : ℕ). t * from_le_bytes ys) (pow-suc_byte (length xs)),
)

length-reverse : (xs : Bytes) → length (reverse xs) ≡ length xs
length-reverse [] = refl
length-reverse (x ∷ xs) =
    ap length (reverse-append (x ∷ []) xs)
    ∙ omega (arith, length-append {0} (reverse xs) (x ∷ []), length-reverse xs)

pub from_be_bytes-eq : (bytes : Bytes) → from_be_bytes bytes ≡ be_value bytes
unfolding from_be_bytes be_value from_le_bytes
from_be_bytes-eq [] = refl
from_be_bytes-eq (b ∷ bytes) =
    ap from_le_bytes (reverse-append (b ∷ []) bytes)
    ∙ from_le_bytes-append (reverse bytes) (b ∷ [])
    ∙ rw (length-reverse bytes) (omega (arith, from_be_bytes-eq bytes))

pub be_value-append :
    (xs ys : Bytes) → be_value (xs ++ ys) ≡ be_value xs * 256 ^ length ys + be_value ys
unfolding be_value
be_value-append [] ys = omega arith
be_value-append (x ∷ xs) ys = rw (length-append xs ys) (
    omega
      (arith, be_value-append xs ys, ap (λ (t : ℕ). x * t) (pow-add_byte (length xs) (length ys))))

pub be_value-lt : (xs : Bytes) → All (λ b. b < 256) xs → be_value xs < 256 ^ length xs
unfolding be_value
be_value-lt [] f = omega arith
be_value-lt (x ∷ xs) f = grind (arith, be_value-lt xs f.1, pow-suc_byte (length xs))

-- A leading byte and the rest are told apart.
be_split : (p x y u v : ℕ) → u < p → v < p → x * p + u ≡ y * p + v → (x ≡ y) × (u ≡ v)
be_split p x y u v a b h =
    let pos : 0 < p = omega arith in
    let first : x ≡ y = omega (
      arith,
      ap (λ (t : ℕ). t / p) h,
      mul-add-div_right pos x u,
      mul-add-div_right pos y v,
      div-eq_of_lt a,
      div-eq_of_lt b,
    ) in
    (first, omega (arith, ap (λ (t : ℕ). t * p) first))

pub be_value_inj :
    (xs ys : Bytes)
    → All (λ b. b < 256) xs
    → All (λ b. b < 256) ys
    → length xs ≡ length ys
    → be_value xs ≡ be_value ys
    → xs ≡ ys
unfolding be_value
be_value_inj [] [] f g e h = refl
be_value_inj [] (y ∷ ys) f g e h = absurd (omega (arith, e))
be_value_inj (x ∷ xs) [] f g e h = absurd (omega (arith, e))
be_value_inj (x ∷ xs) (y ∷ ys) f g e h =
    let same : length ys ≡ length xs = omega (arith, e) in
    let (first, rest) =
      be_split (256 ^ length xs) x y (be_value xs) (be_value ys) (be_value-lt xs f.1)
        (rw same at (be_value-lt ys g.1)) (rw same at h) in
    ap₂ (λ b l. b ∷ l) first (be_value_inj xs ys f.1 g.1 (sym same) rest)
