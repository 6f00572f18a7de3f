-- ===== src/Amt/Params/Cached.antt =====
-- crypto/prove_params.rs: `get_idents_pow` and `get_quotient_pow` with the caches of multiples.
use Prim.Native.Nat.{bit_xor}
use extended_hypertrie_authe.Prelude.{
  ℕ, zero, suc, ◌+◌, ◌-◌, ◌*◌, ◌%◌, ◌^◌, ltb, shl, List, [], ◌∷◌, Option, some, none, nat_eq,
  get_elem?, set, if◌then◌else◌,
}
use extended_hypertrie_authe.Prelude.Maps.{Assoc, lookup, insert}
use extended_hypertrie_authe.Prelude.Options.{◌>>=◌}
use extended_hypertrie_authe.Amt.Params.{Curve, AmtParams, at_depth}
use extended_hypertrie_authe.Amt.Params.LowestBit.{trailing_zeros}

module _ (c : Curve) (point : c.G) where
  -- `entry(idx).or_insert_with(..)`: the multiple by the power of 2, in 256 bits.
  unfoldable pub cached_multiple : Assoc ℕ c.G → ℕ → c.G × Assoc ℕ c.G
  cached_multiple caches idx = elim (lookup idx caches) [
    | some multiple ↦ (multiple, caches)
    | none ↦
        let multiple = c.mul point (shl 1 idx % 2 ^ 256) in (multiple, insert idx multiple caches)
  ]

  -- The `while` loop over the bits of one word; 64 rounds are enough.
  unfoldable pub add_limb : ℕ → ℕ → ℕ → c.G → Assoc ℕ c.G → c.G × Assoc ℕ c.G
  add_limb zero dword_idx limb answer caches = (answer, caches)
  add_limb (suc fuel) dword_idx limb answer caches =
      let bit_idx = trailing_zeros 64 limb in
      let entry = cached_multiple caches (dword_idx * 64 + bit_idx) in
      let rest =
        add_limb fuel dword_idx (bit_xor limb (shl 1 bit_idx)) (c.add answer entry.0) entry.1 in
      if ltb bit_idx 64 then rest else (answer, caches)

  unfoldable pub add_limbs : ℕ → List ℕ → c.G → Assoc ℕ c.G → c.G × Assoc ℕ c.G
  add_limbs dword_idx [] answer caches = (answer, caches)
  add_limbs dword_idx (limb ∷ power) answer caches =
      let step = add_limb 64 dword_idx limb answer caches in
      add_limbs (suc dword_idx) power step.0 step.1

module _ (c : Curve) (pp : AmtParams c) where
  -- `none` is a panic. The caches are returned changed; there is one to a point.
  unfoldable pub cached_idents_pow :
      List (Assoc ℕ c.G) → ℕ → List ℕ → Option (c.G × List (Assoc ℕ c.G))
  cached_idents_pow indents_cache index power = do
    caches ← get_elem? indents_cache index
    point ← get_elem? pp.commitments index
    let sum = add_limbs c point 0 power c.zero_point caches
    some (sum.0, set indents_cache index sum.1)

  unfoldable pub cached_quotient_pow :
      List (List (Assoc ℕ c.G)) → ℕ → ℕ → List ℕ → Option (c.G × List (List (Assoc ℕ c.G)))
  cached_quotient_pow quotient_cache depth index power = do
    row ← at_depth quotient_cache depth
    caches ← get_elem? row index
    points ← at_depth pp.quotients depth
    point ← get_elem? points index
    let sum = add_limbs c point 0 power c.zero_point caches
    some (sum.0, set quotient_cache (depth - 1) (set row index sum.1))
