-- ===== src/Checks/SingleRuns.antt =====
-- The tree over the hashes of the values, at concrete keys and nodes.
use extended_hypertrie_authe.Prelude.{[], ◌∷◌, none, false, ◌≡◌, arith}
use extended_hypertrie_authe.Serde.{SerdeType}
use extended_hypertrie_authe.SingleAmt.{HashedNode, key_index, key_index-none}
use extended_hypertrie_authe.Checks.Toy.{toy_lib}

key_index-none_example : key_index 16 (1 ∷ 2 ∷ 3 ∷ []) ≡ none
key_index-none_example = key_index-none 16 (1 ∷ 2 ∷ 3 ∷ []) (λ e. omega (arith, e))

abbrev seven : HashedNode toy_lib
seven = record { bytes = 7 ∷ 8 ∷ []; hash = 5 }

abbrev local : SerdeType
local = record { consistent = false }
