-- ===== src/Merkle/Prove.antt =====
-- The loop of `StaticMerkleTree::prove` collects the siblings.
pub mod Complete
pub mod Zero
use Prim.Native.Nat.{bit_or, bit_xor}
use extended_hypertrie_authe.Prelude.{
  ℕ, zero, suc, ◌+◌, ◌-◌, ◌*◌, ◌/◌, ◌%◌, ◌^◌, ◌≤◌, ◌<◌, List, [], ◌∷◌, ◌++◌, Option, none, some,
  Bool, true, false, ◌≡◌, ◌≢◌, refl, ap, arith, length, get_or, get_elem?, ltb, ltb→lt, ◌==◌, shl,
  shr, shr-suc, if◌then◌else◌, Bool-cases, pow-suc_two, pow_pos, ◌⊎◌, inl, inr, nat_eq, pow_mono,
  ◌∙◌, All,
}
use extended_hypertrie_authe.Prelude.Bits.{flip, flip-lt, bit_xor-one, bit_or_fields}
use extended_hypertrie_authe.Prelude.Options.{◌>>=◌}
use extended_hypertrie_authe.Serde.{Bytes}
use extended_hypertrie_authe.Storage.Backend.{KeyValueDb}
use extended_hypertrie_authe.Storage.Layout.{flatten_array}
use extended_hypertrie_authe.Storage.Access.{World, get}
use extended_hypertrie_authe.Storage.Access.View.{view, touch, get-eq-view, view-touch}
use extended_hypertrie_authe.Merkle.{combine_hash, prove_levels, Access}
use extended_hypertrie_authe.Merkle.Hashing.{HashLib, h256_serde}
use extended_hypertrie_authe.Merkle.Levels.{next_level, level_from}
use extended_hypertrie_authe.Merkle.Sound.{sibling_path}

-- The index that `prove` reads is the sibling's.
sibling_index :
    (n p : ℕ) → p < 2 ^ suc n → bit_or (shl 1 (suc n)) (bit_xor p 1) ≡ 2 ^ suc n + flip p
sibling_index n p h =
    rw (bit_xor-one p) (omega (arith, bit_or_fields (suc n) 1 (flip p) (flip-lt n p h)))

module _ (lib : HashLib) where
  open lib use {H256, keccak_empty}

  -- No hash of the level, or of those above it, is `H256::default()`.
  abbrev pub NoDefault : List H256 → Type 0
  NoDefault level = (h i : ℕ) → get_elem? (level_from lib h level) i ≢ some lib.default

  -- A default read means that there is no right neighbour.
  substitute_lem :
      (level : List H256) (j : ℕ)
      → get_elem? level j ≢ some lib.default
      → (if lib.beq (get_or level j lib.default) lib.default
          then keccak_empty
          else get_or level j lib.default)
        ≡ get_or level j keccak_empty
  substitute_lem [] j h = rw ((lib.beq_iff lib.default lib.default).1 refl)
  substitute_lem (x ∷ level) zero h = ground (arith, lib.beq_iff x lib.default)
  substitute_lem (x ∷ level) (suc j) h = substitute_lem level j h

  NoDefault-next_level : (level : List H256) → NoDefault level → NoDefault (next_level lib level)
  unfolding level_from
  NoDefault-next_level level d = λ k i. d (suc k) i

  level_from-ne_default :
      ((bytes : Bytes) → lib.keccak bytes ≢ lib.default)
      → (h : ℕ) (level : List H256) → All (λ x. x ≢ lib.default) level
      → All (λ x. x ≢ lib.default) (level_from lib h level)
  unfolding level_from next_level combine_hash
  level_from-ne_default k zero level f = f
  level_from-ne_default k (suc h) level f =
      level_from-ne_default k h (next_level lib level) (parents level f)
    where
      parents :
          (level : List H256)
          → All (λ x. x ≢ lib.default) level
          → All (λ x. x ≢ lib.default) (next_level lib level)
      parents [] f = tt
      parents (x ∷ []) f = (k _, tt)
      parents (x ∷ y ∷ level) f = (k _, parents level f.1.1)

  get_elem?-ne :
      (level : List H256) (i : ℕ)
      → All (λ x. x ≢ lib.default) level
      → get_elem? level i ≢ some lib.default
  get_elem?-ne [] i f h = cc
  get_elem?-ne (x ∷ level) zero f h = f.0 (cc)
  get_elem?-ne (x ∷ level) (suc i) f h = get_elem?-ne level i f.1 h

  -- A tree whose leaves are not the default has no default, if the hash function never returns it.
  pub NoDefault-leaves :
      ((bytes : Bytes) → lib.keccak bytes ≢ lib.default)
      → (level : List H256) → All (λ x. x ≢ lib.default) level
      → NoDefault level
  NoDefault-leaves k level f h i =
      get_elem?-ne (level_from lib h level) i (level_from-ne_default k h level f)

module _ (db : KeyValueDb) (lib : HashLib) (w : World db.State) where
  open lib use {H256, keccak_empty}

  abbrev pub shown : Access db lib → ℕ → Option H256
  shown a k = view db (h256_serde lib) flatten_array lib.default a w k

  -- Where the access shows the levels from depth 1 to `n`, the lowest of which is `level`.
  abbrev pub ShowsLevels : ℕ → List H256 → Access db lib → Type 0
  ShowsLevels n level a =
      (m j : ℕ)
      → 1 ≤ m
      → m ≤ n
      → j < 2 ^ m
      → shown a (2 ^ m + j) ≡ some (get_or (level_from lib (n - m) level) j lib.default)

  abbrev touched : Access db lib → ℕ → H256 → Access db lib
  touched = touch db (h256_serde lib) flatten_array lib.default

  ShowsLevels-touch :
      (n index : ℕ) (level : List H256) (a : Access db lib) (v : H256)
      → shown a index ≡ some v
      → ShowsLevels (suc n) level a
      → ShowsLevels n (next_level lib level) (touched a index v)
  unfolding level_from
  ShowsLevels-touch n index level a v seen s = λ m j one le lt.
      let up : suc n - m ≡ suc (n - m) = omega arith in
      view-touch db (h256_serde lib) flatten_array lib.default a w index v (2 ^ m + j) seen
      ∙ rw up at (s m j one (omega arith) lt)

  read_sibling :
      (n q : ℕ) (level : List H256) (a : Access db lib)
      → q < 2 ^ suc n
      → ShowsLevels (suc n) level a
      → shown a (2 ^ suc n + flip q) ≡ some (get_or level (flip q) lib.default)
  unfolding level_from
  read_sibling n q level a p s =
      let top : suc n - suc n ≡ 0 = omega arith in
      rw top at (s (suc n) (flip q) (omega arith) (omega arith) (flip-lt n q p))

  pub prove_levels-eq :
      (n total pos : ℕ) (level : List H256) (a : Access db lib)
      → n ≤ total
      → shr pos (total - n) < 2 ^ n
      → ShowsLevels n level a
      → NoDefault lib level
      → (a' : Access db lib) × (prove_levels db lib total pos n a w
          ≡ some (sibling_path lib n level (shr pos (total - n)), a'))
  unfolding prove_levels sibling_path level_from
  prove_levels-eq zero total pos level a h p s d = (a, refl)
  prove_levels-eq (suc n) total pos level a h p s d =
      let q = shr pos (total - suc n) in
      let v = get_or level (flip q) lib.default in
      let seen = read_sibling n q level a p s in
      let up : total - n ≡ suc (total - suc n) = omega arith in
      let parent : shr pos (total - n) ≡ q / 2 = rw up (shr-suc pos (total - suc n)) in
      let (a', rest) =
        prove_levels-eq n total pos (next_level lib level) (touched a (2 ^ suc n + flip q) v)
          (omega arith) (omega (arith, parent, pow-suc_two n))
          (ShowsLevels-touch n (2 ^ suc n + flip q) level a v seen s)
          (NoDefault-next_level lib level d) in
      (
        a',
        rw
            (
              sibling_index n q p,
              get-eq-view db (h256_serde lib) flatten_array lib.default a w (2 ^ suc n + flip q),
              seen,
            )
            (rw (rest, substitute_lem lib level (flip q) (d 0 (flip q)), parent)),
      )
