-- ===== src/Prelude/Bits.antt =====
-- The bit operations of the source at variables: `x | y` of disjoint fields and `x ^ 1`.
use Prim.Native.Nat.{
  ℕ, zero, suc, ◌+◌, ◌-◌, ◌*◌, ◌/◌, ◌%◌, ◌^◌, ◌≤◌, ◌<◌, min, max, bit_and, bit_or, bit_xor, bitwise,
  bit_and-bitwise, bit_or-bitwise, bit_xor-bitwise, digits, differ,
}
use mathlib.Core.Logic.{◌≢◌}
use mathlib.Core.Path.{◌≡◌, refl, ap, ◌∙◌}
use native.Mathlib.Nat.{le_refl}
use native.Mathlib.Omega.{arith}
use extended_hypertrie_authe.Prelude.Powers.{pow-suc_two, shr, shr-shr}
use extended_hypertrie_authe.Prelude.Tests.{◌==◌, if◌then◌else◌}

-- A native operation is a recursion on binary digits. It has as many rounds as the first number,
-- and any larger count gives the same.
module _ (rest : ℕ → ℕ) (join : ℕ → ℕ → ℕ) where
  rounds_enough :
      (x y : ℕ) (k l : ℕ) → x ≤ k → x ≤ l → digits rest join k x y ≡ digits rest join l x y
  rounds_enough zero y zero zero _ _ = refl
  rounds_enough zero y zero (suc l) _ _ = refl
  rounds_enough zero y (suc k) zero _ _ = refl
  rounds_enough zero y (suc k) (suc l) _ _ = refl
  rounds_enough (suc x) y zero l over _ = elim over [ ]
  rounds_enough (suc x) y (suc k) zero _ over = elim over [ ]
  rounds_enough (suc x) y (suc k) (suc l) below below' =
      let half : suc x / 2 ≤ k = omega (arith, below) in
      let half' : suc x / 2 ≤ l = omega (arith, below') in
      ap (λ (t : ℕ). t * 2 + join (suc x % 2) (y % 2))
        (rounds_enough (suc x / 2) (y / 2) k l half half')

  lowest_digit :
      (x y : ℕ)
      → bitwise rest join (suc x) y
        ≡ join (suc x % 2) (y % 2) + 2 * bitwise rest join (suc x / 2) (y / 2)
  lowest_digit x y =
      let same = rounds_enough (suc x / 2) (y / 2) x (suc x / 2) (omega arith) (le_refl _) in
      omega (arith, same)

bit_or_step : (x y : ℕ) → bit_or x y ≡ max (x % 2) (y % 2) + 2 * bit_or (x / 2) (y / 2)
bit_or_step zero y = simp bit_or-bitwise (omega arith)
bit_or_step (suc x) y = simp bit_or-bitwise (lowest_digit (λ rest. rest) max x y)

pub bit_xor_step : (x y : ℕ) → bit_xor x y ≡ differ (x % 2) (y % 2) + 2 * bit_xor (x / 2) (y / 2)
bit_xor_step zero y = simp bit_xor-bitwise (ground arith)
bit_xor_step (suc x) y = simp bit_xor-bitwise (lowest_digit (λ rest. rest) differ x y)

bit_and_step : (x y : ℕ) → bit_and x y ≡ min (x % 2) (y % 2) + 2 * bit_and (x / 2) (y / 2)
bit_and_step zero y = simp bit_and-bitwise (omega arith)
bit_and_step (suc x) y = simp bit_and-bitwise (lowest_digit (λ _. 0) min x y)

differ-zero : (x : ℕ) → differ x 0 ≡ x
differ-zero zero = refl
differ-zero (suc x) = refl

differ-one : (x : ℕ) → x < 2 → differ x 1 ≡ 1 - x
differ-one zero h = refl
differ-one (suc zero) h = refl
differ-one (suc (suc x)) h = absurd (omega arith)

-- The three operations with 0 on the right.
with_zero : (bound x : ℕ) → x ≤ bound → (bit_and x 0 ≡ 0) × ((bit_or x 0 ≡ x) × (bit_xor x 0 ≡ x))
with_zero _ zero _ = (refl, (refl, refl))
with_zero zero (suc x) over = elim over [ ]
with_zero (suc bound) (suc x) below =
    let (ands, (ors, xors)) = with_zero bound (suc x / 2) (omega (arith, below)) in
    (
      omega (arith, ands, bit_and_step (suc x) 0),
      (
        omega (arith, ors, bit_or_step (suc x) 0),
        omega (arith, xors, bit_xor_step (suc x) 0, differ-zero (suc x % 2)),
      ),
    )

-- `x ^ 1` flips the lowest bit.
unfoldable pub flip : ℕ → ℕ
flip x = if x % 2 == 0 then x + 1 else x - 1

pub bit_xor-one : (x : ℕ) → bit_xor x 1 ≡ flip x
unfolding flip
bit_xor-one x =
    ground
      (arith, bit_xor_step x 1, differ-one (x % 2), (with_zero (x / 2) (x / 2) (le_refl _)).1.1)

-- `(q << k) | r` is a sum when `r` fits `k` bits.
pub bit_or_fields : (k q r : ℕ) → r < 2 ^ k → bit_or (q * 2 ^ k) r ≡ q * 2 ^ k + r
bit_or_fields zero q r low =
    let none_low : r ≡ 0 = omega (arith, low) in
    let whole : q * 1 ≡ q = omega arith in
    rw (none_low, whole) ((with_zero q q (le_refl _)).1.0 ∙ omega arith)
bit_or_fields (suc k) q r low =
    let double = pow-suc_two k in
    let halves = bit_or_fields k q (r / 2) (omega (arith, low, double)) in
    ground (arith, halves, double, bit_or_step (q * 2 ^ suc k) r, ap (λ (t : ℕ). q * t) double)

pub bit_and-one : (a : ℕ) → bit_and a 1 ≡ a % 2
bit_and-one a = omega (arith, bit_and_step a 1, (with_zero (a / 2) (a / 2) (le_refl _)).0)

pub flip-flip : (x : ℕ) → flip (flip x) ≡ x
unfolding flip
flip-flip x = ground arith

pub flip-ne : (x : ℕ) → flip x ≢ x
unfolding flip
flip-ne x h = ground arith

half-flip : (x : ℕ) → flip x / 2 ≡ x / 2
unfolding flip
half-flip x = ground arith

-- Flipping the lowest bit is not seen above it.
pub shr-flip : (x k : ℕ) → shr (flip x) (suc k) ≡ shr x (suc k)
shr-flip x k =
    let e : suc k ≡ 1 + k = omega arith in
    rw (e, ← shr-shr (flip x) 1 k, ← shr-shr x 1 k) (ap (λ (t : ℕ). shr t k) (half-flip x))

pub flip-lt : (n p : ℕ) → p < 2 ^ suc n → flip p < 2 ^ suc n
unfolding flip
flip-lt n p h = ground (arith, pow-suc_two n)

-- `x & 0xf` keeps the lowest four bits.
pub bit_and_nibble : (x : ℕ) → bit_and x 15 ≡ x % 16
bit_and_nibble x =
    let x1 = x / 2 in
    let x2 = x1 / 2 in
    let x3 = x2 / 2 in
    let last = (with_zero (x3 / 2) (x3 / 2) (le_refl _)).0 in
    omega (arith, bit_and_step x 15, bit_and_step x1 7, bit_and_step x2 3, bit_and_step x3 1, last)
