-- ===== src/Amt/Params/Multiples.antt =====
-- The cached multiples of crypto/prove_params.rs are the plain ones: `Cached` against `Params`.
use Prim.Native.Nat.{bit_xor}
use extended_hypertrie_authe.Prelude.{
  ℕ, zero, suc, ◌+◌, ◌-◌, ◌*◌, ◌%◌, ◌^◌, ◌≤◌, ◌<◌, ltb, shl, List, [], ◌∷◌, some, ◌≡◌, refl, arith,
  length, nat_eq, Bool-cases, Option-cases, inl, inr, get_elem?, All, set, pow-add, pow_mono,
  ltb→lt, ==_iff, pow-suc_two, sym, ap, ◌∙◌,
}
use extended_hypertrie_authe.Prelude.Maps.{Assoc, lookup, insert, lookup-insert}
use extended_hypertrie_authe.Amt.Params.{
  Curve, AmtParams, at_depth, get_idents_pow, get_quotient_pow,
}
use extended_hypertrie_authe.Amt.Params.LowestBit.{
  trailing_zeros, split_lowest, word_is_zero, trailing_zeros-multiple,
}
use extended_hypertrie_authe.Amt.Params.Cached.{
  cached_multiple, add_limb, add_limbs, cached_idents_pow, cached_quotient_pow,
}

-- The value of the words of a scalar, the lowest first.
unfoldable pub limbs_value : ℕ → List ℕ → ℕ
limbs_value dword_idx [] = 0
limbs_value dword_idx (limb ∷ power) =
    limb * 2 ^ (dword_idx * 64) + limbs_value (suc dword_idx) power

module _ (c : Curve) (point : c.G) where
  -- Every cached entry is the multiple by its power of 2.
  abbrev pub IsCache : Assoc ℕ c.G → Type 0
  IsCache caches = (idx : ℕ) (g : c.G) → lookup idx caches ≡ some g → g ≡ c.mul point (2 ^ idx)

  IsCache-insert :
      (caches : Assoc ℕ c.G) (idx : ℕ) (multiple : c.G)
      → IsCache caches
      → multiple ≡ c.mul point (2 ^ idx)
      → IsCache (insert idx multiple caches)
  IsCache-insert caches idx multiple h own j g hit =
      ground (arith, ==_iff idx j, lookup-insert idx j multiple caches, h j g, own, hit)

  add-none : (answer : c.G) (n : ℕ) → n ≡ 0 → c.add answer (c.mul point n) ≡ answer
  add-none answer n e = rw (e, c.mul-zero point, c.add_comm answer c.zero_point) (c.zero-add answer)

  pub cached_multiple-IsCache :
      (caches : Assoc ℕ c.G) (idx : ℕ)
      → IsCache caches
      → idx < 256
      → (cached_multiple c point caches idx).0 ≡ c.mul point (2 ^ idx)
        × IsCache (cached_multiple c point caches idx).1
  unfolding cached_multiple
  cached_multiple-IsCache caches idx h small = elim (Option-cases (lookup idx caches)) [
    | inl e ↦
        let multiple = c.mul point (shl 1 idx % 2 ^ 256) in
        let fits : shl 1 idx % 2 ^ 256 ≡ 2 ^ idx =
          omega (arith, small, pow_mono idx 255 (omega (arith, small))) in
        let own : multiple ≡ c.mul point (2 ^ idx) = ap (λ (t : ℕ). c.mul point t) fits in
        let same : cached_multiple c point caches idx ≡ (multiple, insert idx multiple caches) =
          rw (cached_multiple, e) refl in
        rw same (own, λ j g hit. IsCache-insert caches idx multiple h own j g hit)
    | inr (g, e) ↦
        let same : cached_multiple c point caches idx ≡ (g, caches) =
          rw (cached_multiple, e) refl in
        rw same (h idx g e, h)
  ]

  pub add_limb-IsCache :
      (fuel s dword_idx limb m : ℕ) (answer : c.G) (caches : Assoc ℕ c.G)
      → IsCache caches
      → dword_idx < 4
      → s + fuel ≡ 64
      → limb ≡ m * 2 ^ s
      → limb < 2 ^ 64
      → (add_limb c point fuel dword_idx limb answer caches).0
          ≡ c.add answer (c.mul point (limb * 2 ^ (dword_idx * 64)))
        × IsCache (add_limb c point fuel dword_idx limb answer caches).1
  unfolding add_limb
  add_limb-IsCache zero s dword_idx limb m answer caches h small count low word =
      let full : s ≡ 64 = omega (arith, count) in
      let whole : limb ≡ m * 2 ^ 64 = low ∙ ap (λ (t : ℕ). m * 2 ^ t) full in
      let nothing : limb ≡ 0 = omega (arith, whole, word) in
      (sym (add-none answer (limb * 2 ^ (dword_idx * 64)) (rw nothing (omega arith))), h)
  add_limb-IsCache (suc fuel) s dword_idx limb m answer caches h small count low word =
      let z = trailing_zeros 64 limb in
      elim (Bool-cases (ltb z 64)) [
        | inr e ↦
            let nothing = word_is_zero 64 limb word (ground (arith, e)) in
            rw e (sym (add-none answer (limb * 2 ^ (dword_idx * 64)) (rw nothing (omega arith))), h)
        | inl e ↦
            let below = ltb→lt z 64 e in
            let (q, (limb_eq, rest_eq)) = split_lowest 64 limb below in
            let above : s ≤ z = rw low (trailing_zeros-multiple 64 s m (omega (arith, count))) in
            let idx = dword_idx * 64 + z in
            let (value, good) =
              cached_multiple-IsCache caches idx h (omega (arith, small, below)) in
            let entry = cached_multiple c point caches idx in
            let place : shl 1 z ≡ 2 ^ z = omega arith in
            let rest_eq' : bit_xor limb (shl 1 z) ≡ q * 2 ^ suc z = rw place rest_eq in
            let low' : bit_xor limb (shl 1 z) ≡ (q * 2 ^ (z - s)) * 2 ^ suc s =
              rest_eq'
              ∙ (ap (λ (t : ℕ). q * 2 ^ t) (omega (arith, above))
                  ∙ (ap (λ (t : ℕ). q * t) (pow-add (z - s) (suc s)) ∙ omega arith)) in
            let smaller : bit_xor limb (shl 1 z) < 2 ^ 64 =
              omega (arith, limb_eq, rest_eq', ap (λ (t : ℕ). q * t) (pow-suc_two z), word) in
            let (sum, kept) =
              add_limb-IsCache fuel (suc s) dword_idx (bit_xor limb (shl 1 z)) (q * 2 ^ (z - s))
                (c.add answer entry.0) entry.1 good small (omega (arith, count)) low' smaller in
            let block = 2 ^ (dword_idx * 64) in
            let parts : limb ≡ 2 ^ z + bit_xor limb (shl 1 z) =
              omega (arith, limb_eq, rest_eq', ap (λ (t : ℕ). q * t) (pow-suc_two z)) in
            let total : 2 ^ idx + bit_xor limb (shl 1 z) * block ≡ limb * block =
              omega (arith, pow-add (dword_idx * 64) z, ap (λ (t : ℕ). t * block) parts) in
            let regroup =
              c.add_assoc answer (c.mul point (2 ^ idx))
                (c.mul point (bit_xor limb (shl 1 z) * block)) in
            let joined = c.mul-add point (2 ^ idx) (bit_xor limb (shl 1 z) * block) in
            let merged =
              ap (λ (g : c.G). c.add answer g) (sym joined ∙ ap (λ (t : ℕ). c.mul point t) total) in
            let first =
              ap
                (λ (g : c.G). c.add (c.add answer g) (c.mul point (bit_xor limb (shl 1 z) * block)))
                value in
            rw e (sum ∙ (first ∙ (regroup ∙ merged)), kept)
      ]

  -- The cached entries stay right, and the sum is the plain multiple of the point.
  pub add_limbs-IsCache :
      (power : List ℕ) (dword_idx : ℕ) (answer : c.G) (caches : Assoc ℕ c.G)
      → IsCache caches
      → dword_idx + length power ≤ 4
      → All (λ (limb : ℕ). limb < 2 ^ 64) power
      → (add_limbs c point dword_idx power answer caches).0
          ≡ c.add answer (c.mul point (limbs_value dword_idx power))
        × IsCache (add_limbs c point dword_idx power answer caches).1
  unfolding add_limbs limbs_value
  add_limbs-IsCache [] dword_idx answer caches h fits words = (sym (add-none answer 0 refl), h)
  add_limbs-IsCache (limb ∷ power) dword_idx answer caches h fits words =
      let (value, good) =
        add_limb-IsCache 64 0 dword_idx limb limb answer caches h (omega (arith, fits))
          (omega arith) (omega arith) words.0 in
      let step = add_limb c point 64 dword_idx limb answer caches in
      let (sum, kept) =
        add_limbs-IsCache power (suc dword_idx) step.0 step.1 good (omega (arith, fits)) words.1 in
      let own = limb * 2 ^ (dword_idx * 64) in
      let others = limbs_value (suc dword_idx) power in
      let first = ap (λ (g : c.G). c.add g (c.mul point others)) value in
      let regroup = c.add_assoc answer (c.mul point own) (c.mul point others) in
      let merged = ap (λ (g : c.G). c.add answer g) (sym (c.mul-add point own others)) in
      (sum ∙ (first ∙ (regroup ∙ merged)), kept)

module _ (c : Curve) (pp : AmtParams c) where
  -- On an index of the tables, a cache that has right entries and a scalar of at most four words:
  -- the cached multiple of a quotient is what the build without caches returns, and the cache that
  -- is left has right entries.
  pub cached_quotient_pow-get_quotient_pow :
      (quotient_cache : List (List (Assoc ℕ c.G))) (depth index : ℕ) (power : List ℕ)
      (row : List (Assoc ℕ c.G)) (caches : Assoc ℕ c.G) (points : List c.G) (point : c.G)
      → at_depth quotient_cache depth ≡ some row
      → get_elem? row index ≡ some caches
      → at_depth pp.quotients depth ≡ some points
      → get_elem? points index ≡ some point
      → IsCache c point caches
      → length power ≤ 4
      → All (λ (limb : ℕ). limb < 2 ^ 64) power
      → (g : c.G) × (left : Assoc ℕ c.G) × (cached_quotient_pow c pp quotient_cache depth index
            power
          ≡ some (g, set quotient_cache (depth - 1) (set row index left)))
        × (get_quotient_pow c pp depth index (limbs_value 0 power) ≡ some g)
        × IsCache c point left
  unfolding cached_quotient_pow get_quotient_pow
  cached_quotient_pow-get_quotient_pow cache depth index power row caches points point r e p q h
        fits words =
      let (sum, kept) =
        add_limbs-IsCache c point power 0 c.zero_point caches h (omega (arith, fits)) words in
      let value = c.mul point (limbs_value 0 power) in
      let left = (add_limbs c point 0 power c.zero_point caches).1 in
      let plain = sum ∙ c.zero-add value in
      (
        value,
        left,
        rw (r, e, p, q)
            (ap (λ (g : c.G). some (g, set cache (depth - 1) (set row index left))) plain),
        rw (p, q) refl,
        kept,
      )

  -- On an index of the tables, a cache that has right entries and a scalar of at most four words:
  -- the cached multiple of a commitment is what the build without caches returns, and the cache
  -- that is left has right entries.
  pub cached_idents_pow-get_idents_pow :
      (indents_cache : List (Assoc ℕ c.G)) (index : ℕ) (power : List ℕ) (caches : Assoc ℕ c.G)
      (point : c.G)
      → get_elem? indents_cache index ≡ some caches
      → get_elem? pp.commitments index ≡ some point
      → IsCache c point caches
      → length power ≤ 4
      → All (λ (limb : ℕ). limb < 2 ^ 64) power
      → (g : c.G) × (left : Assoc ℕ c.G) × (cached_idents_pow c pp indents_cache index power
          ≡ some (g, set indents_cache index left))
        × (get_idents_pow c pp index (limbs_value 0 power) ≡ some g)
        × IsCache c point left
  unfolding cached_idents_pow get_idents_pow
  cached_idents_pow-get_idents_pow cache index power caches point e p h fits words =
      let (sum, kept) =
        add_limbs-IsCache c point power 0 c.zero_point caches h (omega (arith, fits)) words in
      let value = c.mul point (limbs_value 0 power) in
      let left = (add_limbs c point 0 power c.zero_point caches).1 in
      let plain = sum ∙ c.zero-add value in
      (
        value,
        left,
        rw (e, p) (ap (λ (g : c.G). some (g, set cache index left)) plain),
        rw p refl,
        kept,
      )
