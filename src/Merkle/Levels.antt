-- ===== src/Merkle/Levels.antt =====
-- The levels of the tree as a plain recursion, which the loops of merkle/mod.rs compute.
use extended_hypertrie_authe.Prelude.{
  ℕ, zero, suc, ◌+◌, ◌/◌, ◌%◌, ◌^◌, ◌≤◌, ◌<◌, List, [], ◌∷◌, ◌++◌, some, Bool, true, false, ◌≡◌,
  refl, arith, length, get_or, ◌==◌, if◌then◌else◌, pow-suc_two,
}
use extended_hypertrie_authe.Prelude.Bits.{flip}
use extended_hypertrie_authe.Merkle.{combine_hash, pad, combine_chunks}
use extended_hypertrie_authe.Merkle.Hashing.{HashLib}

half_step : (p : ℕ) → suc (suc p) / 2 ≡ suc (p / 2)
half_step p = omega arith

parity_step : (p : ℕ) → suc (suc p) % 2 ≡ p % 2
parity_step p = omega arith

flip_step : (p : ℕ) → flip (suc (suc p)) ≡ suc (suc (flip p))
unfolding flip
flip_step p = ground arith

module _ (lib : HashLib) where
  open lib use {H256, keccak_empty}

  -- The parents of a level; a hash with no right neighbour is combined with `KECCAK_EMPTY`.
  unfoldable pub next_level : List H256 → List H256
  next_level [] = []
  next_level (a ∷ []) = combine_hash lib a keccak_empty ∷ []
  next_level (a ∷ b ∷ rest) = combine_hash lib a b ∷ next_level rest

  -- The level `h` steps up.
  unfoldable pub level_from : ℕ → List H256 → List H256
  level_from zero level = level
  level_from (suc h) level = level_from h (next_level level)

  pad_step : (a b : H256) (rest : List H256) → pad lib (a ∷ b ∷ rest) ≡ a ∷ b ∷ pad lib rest
  unfolding pad
  pad_step a b rest = rw (parity_step (length rest)) (pull (length rest % 2 == 0))
    where
      pull :
          (t : Bool)
          → ◌≡◌ {A = List H256}
              (if t then a ∷ b ∷ rest else a ∷ b ∷ rest ++ keccak_empty ∷ [])
              (a ∷ b ∷ (if t then rest else rest ++ keccak_empty ∷ []))
      pull true = refl
      pull false = refl

  pub combine_chunks-pad :
      (level : List H256) → combine_chunks lib (pad lib level) ≡ some (next_level level)
  unfolding pad combine_chunks next_level
  combine_chunks-pad [] = refl
  combine_chunks-pad (a ∷ []) = refl
  combine_chunks-pad (a ∷ b ∷ rest) = rw (pad_step a b rest) (rw (combine_chunks-pad rest))

  pub length-next_level : (level : List H256) → length (next_level level) ≡ (length level + 1) / 2
  unfolding next_level
  length-next_level [] = refl
  length-next_level (a ∷ []) = refl
  length-next_level (a ∷ b ∷ rest) = omega (arith, length-next_level rest)

  pub length-next_level-le :
      (k : ℕ) (level : List H256) → length level ≤ 2 ^ suc k → length (next_level level) ≤ 2 ^ k
  length-next_level-le k level h = omega (arith, length-next_level level, pow-suc_two k)

  abbrev pub parent_of : List H256 → ℕ → H256 → H256
  parent_of level p z =
      if p % 2 == 0
      then combine_hash lib (get_or level p z) (get_or level (flip p) keccak_empty)
      else combine_hash lib (get_or level (flip p) keccak_empty) (get_or level p z)

  get_or-step :
      (a b : H256) (rest : List H256) (p : ℕ) (z : H256)
      → get_or (next_level rest) (p / 2) z ≡ parent_of rest p z
      → get_or (next_level (a ∷ b ∷ rest)) (suc (suc p) / 2) z
        ≡ parent_of (a ∷ b ∷ rest) (suc (suc p)) z
  unfolding next_level
  get_or-step a b rest p z h = rw (half_step p, flip_step p, parity_step p) h

  -- The parent of the hash at `p`.
  pub get_or-next_level :
      (level : List H256) (p : ℕ) (z : H256)
      → p < length level
      → get_or (next_level level) (p / 2) z ≡ parent_of level p z
  unfolding next_level flip
  get_or-next_level [] p z h = elim h [ ]
  get_or-next_level (a ∷ []) zero z h = refl
  get_or-next_level (a ∷ []) (suc p) z h = absurd (omega arith)
  get_or-next_level (a ∷ b ∷ rest) zero z h = refl
  get_or-next_level (a ∷ b ∷ rest) (suc zero) z h = refl
  get_or-next_level (a ∷ b ∷ rest) (suc (suc p)) z h =
      get_or-step a b rest p z (get_or-next_level rest p z (omega arith))
