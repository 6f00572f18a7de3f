-- ===== src/Amt/Params.antt =====
-- crypto/prove_params.rs: the group elements that a tree and its proofs are made of. The group of
-- the curve (arkworks) is a parameter.
mod LowestBit
pub mod Cached
pub mod Multiples
use extended_hypertrie_authe.Prelude.{ℕ, zero, suc, ◌+◌, List, Option, none, some, ◌≡◌, get_elem?}
use extended_hypertrie_authe.Prelude.Options.{◌>>=◌}
use extended_hypertrie_authe.Serde.{Serde}

-- `ProjectiveCurve`: the group, its scalar multiples, and the reader and writer of its elements.
-- The laws are those of a commutative group's multiples.
pub record Curve : Type 1 where
  pub G : Type 0
  pub zero_point : G
  pub add : G → G → G
  pub mul : G → ℕ → G
  pub serde : Serde G
  pub add_comm : (g h : G) → add g h ≡ add h g
  pub add_assoc : (g h k : G) → add (add g h) k ≡ add g (add h k)
  pub zero-add : (g : G) → add zero_point g ≡ g
  pub mul-zero : (g : G) → mul g 0 ≡ zero_point
  pub mul-add : (g : G) (m n : ℕ) → mul g (m + n) ≡ add (mul g m) (mul g n)

-- The row of a depth, `rows[depth - 1]`: `none` is the underflow at depth 0, or an index out of
-- range.
abbrev pub at_depth {ℓ} : {A : Type ℓ} → List A → ℕ → Option A
at_depth rows zero = none
at_depth rows (suc depth) = get_elem? rows depth

module _ (c : Curve) where
  -- `struct AMTParams`, less the verification keys; the caches of multiples are in `Cached`.
  pub record AmtParams : Type 0 where
    pub commitments : List c.G
    pub quotients : List (List c.G)

module _ (c : Curve) (pp : AmtParams c) where
  -- `none` is a panic.
  unfoldable pub get_idents_pow : ℕ → ℕ → Option c.G
  get_idents_pow index power = do g ← get_elem? pp.commitments index; some (c.mul g power)

  unfoldable pub get_quotient_pow : ℕ → ℕ → ℕ → Option c.G
  get_quotient_pow depth index power = do
    row ← at_depth pp.quotients depth
    g ← get_elem? row index
    some (c.mul g power)
