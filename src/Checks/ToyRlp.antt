-- ===== src/Checks/ToyRlp.antt =====
-- An encoding of items with the laws of `Rlp`: a mark, and for a list the length of every item.
use extended_hypertrie_authe.Prelude.{
  ℕ, zero, suc, ◌<◌, ◌≤◌, List, [], ◌∷◌, ◌++◌, Option, none, some, false, ltb, ◌≡◌, refl, arith,
  length, length-append, take, drop, take-append, drop-append, All, if◌then◌else◌,
}
use extended_hypertrie_authe.Prelude.Options.{◌>>=◌}
use extended_hypertrie_authe.Serde.{Bytes}
use extended_hypertrie_authe.Rainblock.Rlp.{RlpItem, text, items, Rlp}

abbrev flat : List Bytes → Bytes
flat [] = []
flat (x ∷ xs) = length x ∷ (x ++ flat xs)

abbrev parts : ℕ → Bytes → Option (List Bytes)
parts zero [] = some []
parts zero (size ∷ rest) = none
parts (suc fuel) [] = some []
parts (suc fuel) (size ∷ rest) =
    let more = parts fuel (drop size rest) in
    if ltb (length rest) size then none else (do xs ← more; some (take size rest ∷ xs))

abbrev pub view_item : Bytes → Option RlpItem
view_item [] = none
view_item (zero ∷ bytes) = some (text bytes)
view_item (suc mark ∷ bytes) = do xs ← parts (length bytes) bytes; some (items xs)

fits : (x rest : Bytes) → ltb (length (x ++ rest)) (length x) ≡ false
fits x rest = ground (arith, length-append x rest)

pub parts-flat :
    (fuel : ℕ) (xs : List Bytes) → length (flat xs) ≤ fuel → parts fuel (flat xs) ≡ some xs
parts-flat zero [] h = refl
parts-flat zero (x ∷ xs) h = absurd (omega (arith, h))
parts-flat (suc fuel) [] h = refl
parts-flat (suc fuel) (x ∷ xs) h =
    let rest = parts-flat fuel xs (omega (arith, h, length-append x (flat xs))) in
    rw (fits x (flat xs))
      (rw (drop-append x (flat xs)) (rw rest (rw (take-append x (flat xs)) refl)))

weaken :
    (m n : ℕ) (xs : List Bytes)
    → m ≤ n
    → All (λ (x : Bytes). length x < m) xs
    → All (λ (x : Bytes). length x < n) xs
weaken m n [] le h = tt
weaken m n (x ∷ xs) le h = (omega (arith, le, h.0), weaken m n xs le h.1)

pub shorter : (xs : List Bytes) → All (λ (x : Bytes). length x < length (1 ∷ flat xs)) xs
shorter [] = tt
shorter (x ∷ xs) = (
  omega (arith, length-append x (flat xs)),
  weaken (length (1 ∷ flat xs)) (length (1 ∷ flat (x ∷ xs))) xs
      (omega (arith, length-append x (flat xs))) (shorter xs),
)

abbrev pub toy_rlp : Rlp
toy_rlp = record {
  append = λ b. 0 ∷ b;
  append_list = λ xs. 1 ∷ flat xs;
  view = view_item;
  view-append = λ b. refl;
  view-append_list = λ xs h. rw (parts-flat (length (flat xs)) xs (omega arith)) refl;
  length-append_list = shorter;
}
