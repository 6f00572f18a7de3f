-- ===== src/Merkle/Sound.antt =====
-- What a proof that `verify` accepts shows.
use extended_hypertrie_authe.Prelude.{
  ℕ, zero, suc, ◌/◌, ◌%◌, ◌^◌, ◌≤◌, ◌<◌, List, [], ◌∷◌, ◌++◌, Bool, true, false, ◌≡◌, ◌≢◌, refl,
  sym, ◌∙◌, ap, ap₂, arith, length, get_or, ◌==◌, shr, shr-suc, if◌then◌else◌, Bool-cases, ◌⊎◌, inl,
  inr, list_beq, list_beq_iff, append_inj,
}
use extended_hypertrie_authe.Prelude.Bits.{flip}
use extended_hypertrie_authe.Serde.{Bytes}
use extended_hypertrie_authe.Merkle.{combine_hash, verify_path, verify}
use extended_hypertrie_authe.Merkle.Hashing.{HashLib}
use extended_hypertrie_authe.Merkle.Levels.{
  next_level, level_from, length-next_level, length-next_level-le, get_or-next_level,
}

module _ (lib : HashLib) where
  open lib use {H256, as_bytes, keccak, keccak_empty}

  -- The siblings on the way up from `p`, one for each of `n` levels.
  unfoldable pub sibling_path : ℕ → List H256 → ℕ → List H256
  sibling_path zero level p = []
  sibling_path (suc n) level p =
      get_or level (flip p) keccak_empty ∷ sibling_path n (next_level lib level) (p / 2)

  -- Folding the siblings leads to the top of the levels.
  verify_path-sibling_path :
      (n index pos : ℕ) (level : List H256) (z : H256)
      → shr pos index < length level
      → length level ≤ 2 ^ n
      → verify_path lib index pos
          (get_or level (shr pos index) z)
          (sibling_path n level (shr pos index))
        ≡ get_or (level_from lib n level) 0 z
  unfolding verify_path sibling_path level_from
  verify_path-sibling_path zero index pos level z p h =
      let e : shr pos index ≡ 0 = omega arith in rw e
  verify_path-sibling_path (suc n) index pos level z p h =
      rw (shr-suc pos index, get_or-next_level lib level (shr pos index) z p) at
        (verify_path-sibling_path n (suc index) pos (next_level lib level) z
          (omega (arith, shr-suc pos index, length-next_level lib level))
          (length-next_level-le lib n level h))

  -- Two inputs that the hash function does not tell apart.
  pub record Collision : Type 0 where
    pub left : Bytes
    pub right : Bytes
    pub differ : left ≢ right
    pub collide : keccak left ≡ keccak right

  as_bytes_inj : (a b : H256) → as_bytes a ≡ as_bytes b → a ≡ b
  as_bytes_inj a b h =
      sym (lib.from_slice-as_bytes a) ∙ ap lib.from_slice h ∙ lib.from_slice-as_bytes b

  combine_hash_inj :
      (a b c d : H256)
      → combine_hash lib a b ≡ combine_hash lib c d
      → ((a ≡ c) × (b ≡ d)) ⊎ Collision
  unfolding combine_hash
  combine_hash_inj a b c d h =
      let x = as_bytes a ++ as_bytes b in
      let y = as_bytes c ++ as_bytes d in
      elim (Bool-cases (list_beq x y)) [
        | inl same ↦
            let (first, second) =
              append_inj (as_bytes a) (as_bytes c)
                (lib.length-as_bytes a ∙ sym (lib.length-as_bytes c)) ((list_beq_iff x y).0 same) in
            inl (as_bytes_inj a c first, as_bytes_inj b d second)
        | inr other ↦
            inr (record {
              left = x;
              right = y;
              differ = λ e. cc ((list_beq_iff x y).1 e);
              collide = h;
            })
      ]

  step_inj :
      (t : Bool) (c d x y : H256)
      → (if t then combine_hash lib c x else combine_hash lib x c)
        ≡ (if t then combine_hash lib d y else combine_hash lib y d)
      → ((c ≡ d) × (x ≡ y)) ⊎ Collision
  step_inj true c d x y h = combine_hash_inj c x d y h
  step_inj false c d x y h = elim (combine_hash_inj x c y d h) [
    | inl (first, second) ↦ inl (second, first)
    | inr found ↦ inr found
  ]

  -- Where two proofs of one length lead to one root, they are one proof of one hash, or the hash
  -- function has a collision.
  verify_path_inj :
      (index pos : ℕ) (c d : H256) (path path' : List H256)
      → length path ≡ length path'
      → verify_path lib index pos c path ≡ verify_path lib index pos d path'
      → ((c ≡ d) × (path ≡ path')) ⊎ Collision
  unfolding verify_path
  verify_path_inj index pos c d [] [] e h = inl (h, refl)
  verify_path_inj index pos c d [] (x ∷ path') e h = absurd (omega (arith, e))
  verify_path_inj index pos c d (x ∷ path) [] e h = absurd (omega (arith, e))
  verify_path_inj index pos c d (x ∷ path) (y ∷ path') e h =
      elim (verify_path_inj (suc index) pos _ _ path path' (omega (arith, e)) h) [
        | inr found ↦ inr found
        | inl (top, rest) ↦ elim (step_inj (shr pos index % 2 == 0) c d x y top) [
          | inr found ↦ inr found
          | inl (same, sibling) ↦ inl (same, ap₂ (λ a l. a ∷ l) sibling rest)
        ]
      ]

  -- If `verify` accepts two hashes at one position with proofs of one length, the hashes and the
  -- proofs are the same, or two different inputs of the hash function are at hand that it maps to
  -- one value.
  pub verify_unique :
      (root c d : H256) (path path' : List H256) (pos : ℕ)
      → length path ≡ length path'
      → verify lib root c (path, pos) ≡ true
      → verify lib root d (path', pos) ≡ true
      → ((c ≡ d) × (path ≡ path')) ⊎ Collision
  unfolding verify
  verify_unique root c d path path' pos e h k =
      verify_path_inj 0 pos c d path path' e ((lib.beq_iff _ _).0 h ∙ sym ((lib.beq_iff _ _).0 k))

  -- The siblings of the hash at `pos` are a proof of it against the top of the levels.
  pub verify-sibling_path :
      (n pos : ℕ) (level : List H256) (z : H256)
      → pos < length level
      → length level ≤ 2 ^ n
      → verify lib
          (get_or (level_from lib n level) 0 z)
          (get_or level pos z)
          (sibling_path n level pos, pos)
        ≡ true
  unfolding verify
  verify-sibling_path n pos level z p h =
      (lib.beq_iff _ _).1
        (rw shr-zero at (verify_path-sibling_path n 0 pos level z (rw shr-zero p) h))
    where
      shr-zero : shr pos 0 ≡ pos
      shr-zero = omega arith
