-- ===== src/Amt/Bitreverse.antt =====
-- `bitreverse` of amt/tree.rs.
use Prim.Native.Nat.{bit_or, bit_and}
use extended_hypertrie_authe.Prelude.{
  ℕ, zero, suc, ◌+◌, ◌-◌, ◌*◌, ◌/◌, ◌%◌, ◌^◌, ◌≤◌, ◌<◌, ◌≡◌, ap, sym, ◌∙◌, arith, shl, shr, shr-shr,
  shr-zero, pow-suc_two, pow_pos,
}
use extended_hypertrie_authe.Prelude.Bits.{bit_or_fields, bit_and-one}
use native.Mathlib.Nat.{mod-lt, div-add-mod, mul-add-mod_self_left, mod-eq_of_lt}

-- `for _ in 0..l`, with the values of `n` and `r`.
unfoldable pub bitreverse_loop : ℕ → ℕ → ℕ → ℕ
bitreverse_loop zero n r = r
bitreverse_loop (suc l) n r = bitreverse_loop l (shr n 1) (bit_or (shl r 1) (bit_and n 1))

unfoldable pub bitreverse : ℕ → ℕ → ℕ
unfolding bitreverse_loop
bitreverse n l = bitreverse_loop l n 0

-- The `l` low bits of `n` in reverse order, by a plain recursion.
unfoldable pub reversed : ℕ → ℕ → ℕ
reversed zero n = 0
reversed (suc l) n = n % 2 * 2 ^ l + reversed l (n / 2)

bitreverse_loop-eq : (l n r : ℕ) → bitreverse_loop l n r ≡ r * 2 ^ l + reversed l n
unfolding bitreverse_loop reversed
bitreverse_loop-eq zero n r = omega arith
bitreverse_loop-eq (suc l) n r =
    let half : shr n 1 ≡ n / 2 = omega arith in
    let joined : bit_or (shl r 1) (bit_and n 1) ≡ r * 2 + n % 2 =
      rw (bit_and-one n) (bit_or_fields 1 r (n % 2) (omega arith)) in
    rw (half, joined)
      (bitreverse_loop-eq l (n / 2) (r * 2 + n % 2)
        ∙ omega (arith, ap (λ (t : ℕ). r * t) (pow-suc_two l)))

pub bitreverse-eq : (n l : ℕ) → bitreverse n l ≡ reversed l n
unfolding bitreverse
bitreverse-eq n l = omega (arith, bitreverse_loop-eq l n 0)

reversed-lt : (l n : ℕ) → reversed l n < 2 ^ l
unfolding reversed
reversed-lt zero n = omega arith
reversed-lt (suc l) n = grind (arith, reversed-lt l (n / 2), pow-suc_two l)

shr_half : (n k : ℕ) → shr (n / 2) k ≡ shr n (suc k)
shr_half n k = let e : suc k ≡ 1 + k = omega arith in rw e (shr-shr n 1 k)

-- The highest bit of the argument is the lowest of the result.
reversed_top : (l n : ℕ) → reversed (suc l) n ≡ 2 * reversed l n + shr n l % 2
unfolding reversed
reversed_top zero n = omega arith
reversed_top (suc l) n =
    omega (arith, reversed_top l (n / 2), shr_half n l, ap (λ (t : ℕ). n % 2 * t) (pow-suc_two l))

mod_split : (p n : ℕ) → 0 < p → n % (2 * p) ≡ n / p % 2 * p + n % p
mod_split p n h =
    let q = n / p in
    let low : n % p < p = mod-lt n h in
    let e : n ≡ 2 * p * (q / 2) + (q % 2 * p + n % p) =
      omega (arith, div-add-mod n p, ap (λ (t : ℕ). p * t) (div-add-mod q 2)) in
    let small : q % 2 * p + n % p < 2 * p = grind arith in
    ap (λ (t : ℕ). t % (2 * p)) e
    ∙ mul-add-mod_self_left (2 * p) (q / 2) (q % 2 * p + n % p)
    ∙ mod-eq_of_lt small

-- Reversing twice gives the low bits back.
reversed-reversed : (l n : ℕ) → reversed l (reversed l n) ≡ n % 2 ^ l
unfolding reversed
reversed-reversed zero n = omega arith
reversed-reversed (suc l) n =
    let b = shr n l % 2 in
    let low : (2 * reversed l n + b) % 2 ≡ b = omega arith in
    let high : (2 * reversed l n + b) / 2 ≡ reversed l n = omega arith in
    twice_step l (reversed (suc l) n) b (reversed l n) (reversed_top l n) low high
    ∙ ap (λ (t : ℕ). b * 2 ^ l + t) (reversed-reversed l n)
    ∙ sym (rw (pow-suc_two l) (mod_split (2 ^ l) n (pow_pos l)))
  where
    twice_step :
        (l m b r : ℕ)
        → m ≡ 2 * r + b
        → (2 * r + b) % 2 ≡ b
        → (2 * r + b) / 2 ≡ r
        → m % 2 * 2 ^ l + reversed l (m / 2) ≡ b * 2 ^ l + reversed l r
    twice_step l m b r e low high = rw (e, low, high)

-- What lies above the `h` lowest bits of the result comes from the `l - h` lowest of the argument.
shr-reversed : (l n h : ℕ) → h ≤ l → shr (reversed l n) h ≡ reversed (l - h) n
shr-reversed l n zero le = let e : l - 0 ≡ l = omega arith in rw e (shr-zero (reversed l n))
shr-reversed zero n (suc h) le = absurd (omega arith)
shr-reversed (suc l) n (suc h) le =
    let e : suc l - suc h ≡ l - h = omega arith in
    let half : (2 * reversed l n + shr n l % 2) / 2 ≡ reversed l n = omega arith in
    rw (e, reversed_top l n, ← shr_half (2 * reversed l n + shr n l % 2) h, half)
      (shr-reversed l n h (omega arith))

-- `bitreverse` of `l` bits has `l` bits.
pub bitreverse-lt : (n l : ℕ) → bitreverse n l < 2 ^ l
bitreverse-lt n l = rw (bitreverse-eq n l) (reversed-lt l n)

-- On `l` bits `bitreverse` is its own inverse.
pub bitreverse-bitreverse : (n l : ℕ) → n < 2 ^ l → bitreverse (bitreverse n l) l ≡ n
bitreverse-bitreverse n l h =
    rw (bitreverse-eq (bitreverse n l) l, bitreverse-eq n l)
      (reversed-reversed l n ∙ mod-eq_of_lt h)

pub shr-bitreverse : (n l h : ℕ) → h ≤ l → shr (bitreverse n l) h ≡ bitreverse n (l - h)
shr-bitreverse n l h le = rw (bitreverse-eq n l, bitreverse-eq n (l - h)) (shr-reversed l n h le)
