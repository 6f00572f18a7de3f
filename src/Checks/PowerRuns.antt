-- ===== src/Checks/PowerRuns.antt =====
-- The cached multiples at a scalar of two words.
use extended_hypertrie_authe.Prelude.{ℕ, List, [], ◌∷◌, some, ◌≡◌, refl, arith, set}
use extended_hypertrie_authe.Prelude.Maps.{Assoc, lookup}
use extended_hypertrie_authe.Amt.Params.{AmtParams, get_idents_pow, get_quotient_pow}
use extended_hypertrie_authe.Amt.Params.Cached.{cached_idents_pow, cached_quotient_pow}
use extended_hypertrie_authe.Amt.Params.Multiples.{
  IsCache, limbs_value, cached_idents_pow-get_idents_pow, cached_quotient_pow-get_quotient_pow,
}
use extended_hypertrie_authe.Checks.TreeRuns.{plain}

abbrev points : AmtParams plain
points = record { commitments = 5 ∷ 7 ∷ []; quotients = (3 ∷ 4 ∷ []) ∷ [] }

abbrev scalar : List ℕ
scalar = 6 ∷ 1 ∷ []

empty-IsCache : (point : ℕ) → IsCache plain point []
unfolding lookup
empty-IsCache point idx g h = ground (arith, h)

cached_idents_pow-get_idents_pow_example :
    (g : ℕ) × (left : Assoc ℕ ℕ) × (cached_idents_pow plain points ([] ∷ [] ∷ []) 1 scalar
      ≡ some (g, set ([] ∷ [] ∷ []) 1 left))
    × (get_idents_pow plain points 1 (limbs_value 0 scalar) ≡ some g)
    × IsCache plain 7 left
cached_idents_pow-get_idents_pow_example =
    cached_idents_pow-get_idents_pow plain points ([] ∷ [] ∷ []) 1 scalar [] 7 refl refl
      (empty-IsCache 7) (omega arith) (omega arith, (omega arith, tt))

cached_quotient_pow-get_quotient_pow_example :
    (g : ℕ) × (left : Assoc ℕ ℕ) × (cached_quotient_pow plain points
        (([] ∷ [] ∷ []) ∷ [])
        1
        1
        scalar
      ≡ some (g, set (([] ∷ [] ∷ []) ∷ []) 0 (set ([] ∷ [] ∷ []) 1 left)))
    × (get_quotient_pow plain points 1 1 (limbs_value 0 scalar) ≡ some g)
    × IsCache plain 4 left
cached_quotient_pow-get_quotient_pow_example =
    cached_quotient_pow-get_quotient_pow plain points (([] ∷ [] ∷ []) ∷ []) 1 1 scalar
      ([] ∷ [] ∷ []) [] (3 ∷ 4 ∷ []) 4 refl refl refl refl (empty-IsCache 4) (omega arith)
      (omega arith, (omega arith, tt))
