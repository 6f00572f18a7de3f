-- ===== src/Amt/Params/LowestBit.antt =====
-- The lowest bit of a word, `trailing_zeros`, and the word without it.
use Prim.Native.Nat.{bit_xor}
use extended_hypertrie_authe.Prelude.{
  ℕ, zero, suc, ◌+◌, ◌*◌, ◌/◌, ◌%◌, ◌^◌, ◌≤◌, ◌<◌, ◌==◌, ◌≡◌, arith, ap, ◌∙◌, if◌then◌else◌,
  pow-suc_two, Bool-cases, inl, inr,
}
use extended_hypertrie_authe.Prelude.Bits.{bit_xor-one, bit_xor_step, flip}

-- `trailing_zeros` of a word of the width, which is the width for 0.
unfoldable pub trailing_zeros : ℕ → ℕ → ℕ
trailing_zeros zero word = 0
trailing_zeros (suc width) word =
    let rest = trailing_zeros width (word / 2) in if word % 2 == 1 then 0 else 1 + rest

-- Below the width it is the place of the lowest bit, which `^` takes away.
pub split_lowest :
    (width word : ℕ)
    → trailing_zeros width word < width
    → let z = trailing_zeros width word in
      (q : ℕ) × ((word ≡ (2 * q + 1) * 2 ^ z) × (bit_xor word (2 ^ z) ≡ q * 2 ^ suc z))
unfolding trailing_zeros flip
split_lowest zero word h = absurd (omega (arith, h))
split_lowest (suc width) word h = elim (Bool-cases (word % 2 == 1)) [
  | inl e ↦ rw e (word / 2, (ground (arith, e), ground (arith, e, bit_xor-one word)))
  | inr e ↦
      let z = trailing_zeros width (word / 2) in
      let below : z < width = ground (arith, e, h) in
      let (q, (word_eq, rest_eq)) = split_lowest width (word / 2) below in
      let even : word % 2 ≡ 0 = ground (arith, e) in
      let double = pow-suc_two z in
      let halves : 2 ^ suc z / 2 ≡ 2 ^ z = omega (arith, double) in
      let low : 2 ^ suc z % 2 ≡ 0 = omega (arith, double) in
      let place : 1 + z ≡ suc z = omega arith in
      let step = bit_xor_step word (2 ^ suc z) in
      let clear : bit_xor word (2 ^ suc z) ≡ 2 * bit_xor (word / 2) (2 ^ z) =
        step ∙ rw (even, low, halves) (omega arith) in
      rw (e, place)
        (
          q,
          (
            omega (arith, even, word_eq, ap (λ (t : ℕ). (2 * q + 1) * t) double),
            clear ∙ omega (arith, rest_eq, ap (λ (t : ℕ). q * t) (pow-suc_two (suc z))),
          ),
        )
]

pub word_is_zero :
    (width word : ℕ) → word < 2 ^ width → width ≤ trailing_zeros width word → word ≡ 0
unfolding trailing_zeros
word_is_zero zero word h k = omega (arith, h)
word_is_zero (suc width) word h k = elim (Bool-cases (word % 2 == 1)) [
  | inl e ↦ ground (arith, e, k)
  | inr e ↦ ground (arith, e, k, pow-suc_two width, word_is_zero width (word / 2))
]

-- A multiple of a power has no bit under it.
pub trailing_zeros-multiple : (width s m : ℕ) → s ≤ width → s ≤ trailing_zeros width (m * 2 ^ s)
unfolding trailing_zeros
trailing_zeros-multiple width zero m h = omega arith
trailing_zeros-multiple zero (suc s) m h = absurd (omega (arith, h))
trailing_zeros-multiple (suc width) (suc s) m h =
    let double : m * 2 ^ suc s ≡ 2 * (m * 2 ^ s) =
      omega (arith, ap (λ (t : ℕ). m * t) (pow-suc_two s)) in
    let half : 2 * (m * 2 ^ s) / 2 ≡ m * 2 ^ s = omega arith in
    let odd : 2 * (m * 2 ^ s) % 2 ≡ 0 = omega arith in
    let rest = trailing_zeros-multiple width s m (omega (arith, h)) in
    rw (double, half, odd) (omega (arith, rest))
