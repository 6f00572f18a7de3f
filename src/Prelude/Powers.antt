-- ===== src/Prelude/Powers.antt =====
-- Powers of two, and shifts as division by them.
use Prim.Native.Nat.{ℕ, zero, suc, ◌+◌, ◌-◌, ◌*◌, ◌/◌, ◌^◌, ◌≤◌, ◌<◌}
use mathlib.Core.Path.{◌≡◌, ap, sym, ◌∙◌}
use native.Mathlib.Nat.{pow-suc, one-le-pow, div-div-eq-div-mul, div-lt_iff_lt-mul}
use native.Mathlib.Omega.{arith}

-- `x << k` and `x >> k`.
abbrev pub shl : ℕ → ℕ → ℕ
shl x k = x * 2 ^ k

abbrev pub shr : ℕ → ℕ → ℕ
shr x k = x / 2 ^ k

pub pow-suc_two : (k : ℕ) → 2 ^ suc k ≡ 2 * 2 ^ k
pow-suc_two k = omega (arith, pow-suc 2 k)

pub pow_pos : (k : ℕ) → 1 ≤ 2 ^ k
pow_pos k = one-le-pow k 2 (omega arith)

pub pow-add : (a b : ℕ) → 2 ^ (a + b) ≡ 2 ^ a * 2 ^ b
pow-add a zero = let e : a + 0 ≡ a = omega arith in rw e (omega arith)
pow-add a (suc b) =
    let e : a + suc b ≡ suc (a + b) = omega arith in
    rw e
      (omega (arith, pow-suc_two (a + b), ap (λ (t : ℕ). 2 ^ a * t) (pow-suc_two b), pow-add a b))

pub pow_mono : (a b : ℕ) → a ≤ b → 2 ^ a ≤ 2 ^ b
pow_mono a b h =
    let e : a + (b - a) ≡ b = omega arith in
    rw (← e) (grind (arith, pow-add a (b - a), pow_pos (b - a)))

pub shr-shr : (x a b : ℕ) → shr (shr x a) b ≡ shr x (a + b)
shr-shr x a b = rw (pow-add a b) (div-div-eq-div-mul x (2 ^ a) (2 ^ b))

pub shr-suc : (x k : ℕ) → shr x (suc k) ≡ shr x k / 2
shr-suc x k = let e : suc k ≡ k + 1 = omega arith in rw e (sym_shr)
  where
    sym_shr : shr x (k + 1) ≡ shr x k / 2
    sym_shr = omega (arith, shr-shr x k 1)

-- A shift by `k` takes `d` bits to `d - k`.
pub shr-lt : (d x k : ℕ) → k ≤ d → x < 2 ^ d → shr x k < 2 ^ (d - k)
shr-lt d x k h p =
    let e : d - k + k ≡ d = omega arith in
    let whole : 2 ^ (d - k) * 2 ^ k ≡ 2 ^ d = sym (pow-add (d - k) k) ∙ ap (λ (t : ℕ). 2 ^ t) e in
    (div-lt_iff_lt-mul (pow_pos k)).1 (rw whole p)

pub shr-zero : (x : ℕ) → shr x 0 ≡ x
shr-zero x = omega arith

pub shr-shl_self : (x k : ℕ) → shr (shl x k) k ≡ x
shr-shl_self x k = grind (arith, pow_pos k)

-- What is shifted in is shifted out first.
pub shr-shl : (x a b : ℕ) → shr (shl x a) (a + b) ≡ shr x b
shr-shl x a b = rw (← shr-shr (shl x a) a b, shr-shl_self x a)

-- A shift by `h - d` takes `d` bits to `h`.
pub shl-lt : (h d x : ℕ) → d ≤ h → x < 2 ^ d → shl x (h - d) < 2 ^ h
shl-lt h d x le lt =
    let e : d + (h - d) ≡ h = omega arith in
    rw (← e) (grind (arith, pow-add d (h - d), pow_pos (h - d)))
