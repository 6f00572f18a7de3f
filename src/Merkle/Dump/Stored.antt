-- ===== src/Merkle/Dump/Stored.antt =====
-- What the dump of an epoch leaves in the database.
use extended_hypertrie_authe.Prelude.{
  ℕ, zero, suc, ◌+◌, ◌-◌, ◌*◌, ◌^◌, ◌≤◌, ◌<◌, List, [], ◌∷◌, Option, none, some, Bool, true, false,
  ◌≡◌, refl, ap, arith, length, get_elem?, get_elem?-none, ltb, ltb→lt, ==_iff, ◌==◌, shl,
  if◌then◌else◌, Bool-cases, pow-suc_two, inl, inr, nat_eq, pow_mono, ◌∙◌,
}
use extended_hypertrie_authe.Storage.Backend.{KeyValueDb}
use extended_hypertrie_authe.Storage.Layout.{flatten_array}
use extended_hypertrie_authe.Storage.Access.{World, set_entry}
use extended_hypertrie_authe.Storage.Access.View.{
  view, view-set_entry, IsCoherent, set_entry-IsCoherent,
}
use extended_hypertrie_authe.Merkle.{store_level, Access}
use extended_hypertrie_authe.Merkle.Hashing.{HashLib, h256_serde}
use extended_hypertrie_authe.Merkle.Levels.{
  next_level, level_from, length-next_level, length-next_level-le,
}
use extended_hypertrie_authe.Merkle.Dump.{access_after}

abbrev pub or_else : {A : Type 0} → Option A → Option A → Option A
or_else none below = below
or_else (some x) below = some x

-- The hash that a row starting at `base` has at a key.
abbrev row : {A : Type 0} → ℕ → List A → ℕ → Option A
row base hashes key = if ltb key base then none else get_elem? hashes (key - base)

row-nil : {A : Type 0} (base key : ℕ) → row {A = A} base [] key ≡ none
row-nil base key = ground arith

row-cons :
    {A : Type 0} (base : ℕ) (x : A) (hashes : List A) (key : ℕ) (below : Option A)
    → or_else (row (suc base) hashes key) (if base == key then some x else below)
      ≡ or_else (row base (x ∷ hashes) key) below
row-cons base x hashes key below = elim (Bool-cases (ltb base key)) [
  | inl above ↦
      let e : key - base ≡ suc (key - suc base) = omega (arith, ltb→lt base key above) in
      rw e (ground (arith, ltb→lt base key above))
  | inr not_above ↦ elim (Bool-cases (base == key)) [
    | inl same ↦
        let e : key - base ≡ 0 = omega (arith, (==_iff base key).0 same) in
        rw (e, same) (ground (arith, (==_iff base key).0 same))
    | inr other ↦ ground arith
  ]
]

module _ (db : KeyValueDb) (lib : HashLib) (w : World db.State) where
  open lib use {H256}

  abbrev shown : Access db lib → ℕ → Option H256
  shown a k = view db (h256_serde lib) flatten_array lib.default a w k

  view-store_level :
      (level i : ℕ) (hashes : List H256) (a : Access db lib) (k : ℕ)
      → shown (store_level db lib false level i hashes a) k
        ≡ or_else (row (2 ^ level + i) hashes k) (shown a k)
  unfolding store_level
  view-store_level level i [] a k = rw (row-nil (2 ^ level + i) k)
  view-store_level level i (x ∷ hashes) a k =
      let start : 2 ^ level + suc i ≡ suc (2 ^ level + i) = omega arith in
      let place : 1 * 2 ^ level + i ≡ 2 ^ level + i = omega arith in
      let key = shl 1 level + i in
      view-store_level level (suc i) hashes (set_entry a key x) k
      ∙ ap (or_else (row (2 ^ level + suc i) hashes k))
          (view-set_entry db (h256_serde lib) flatten_array lib.default a w key x k)
      ∙ rw (start, place) (row-cons (2 ^ level + i) x hashes k (shown a k))

  view-store_level_only_root :
      (level i : ℕ) (hashes : List H256) (a : Access db lib)
      → store_level db lib true level i hashes a ≡ a
  unfolding store_level
  view-store_level_only_root level i [] a = refl
  view-store_level_only_root level i (x ∷ hashes) a =
      view-store_level_only_root level (suc i) hashes a

  row-from :
      (base j : ℕ) (found below : Option H256)
      → or_else (if ltb (base + j) base then none else found) below ≡ or_else found below
  row-from base j found below = ground arith

  row-below :
      (base key : ℕ) (hashes : List H256) (below : Option H256)
      → key < base
      → or_else (row base hashes key) below ≡ below
  row-below base key hashes below h = ground arith

  row-beyond :
      (base key : ℕ) (hashes : List H256) (below : Option H256)
      → base + length hashes ≤ key
      → or_else (row base hashes key) below ≡ below
  row-beyond base key hashes below h = ground (arith, get_elem?-none hashes (key - base))

  fits_above :
      (n : ℕ) (level : List H256)
      → length level ≤ 2 ^ n
      → length (next_level lib level) ≤ 2 ^ (n - 1)
  fits_above zero level h = omega (arith, length-next_level lib level)
  fits_above (suc n) level h =
      let e : suc n - 1 ≡ n = omega arith in rw e (length-next_level-le lib n level h)

  -- The rows that are written later lie below.
  view-access_after_above :
      (n : ℕ) (level : List H256) (a : Access db lib) (k : ℕ)
      → length level ≤ 2 ^ (n - 1)
      → 2 ^ n ≤ k
      → shown (access_after db lib false n level a) k ≡ shown a k
  unfolding access_after
  view-access_after_above zero level a k h p = refl
  view-access_after_above (suc n) level a k h p =
      let e : suc n - 1 ≡ n = omega arith in
      let fits : length level ≤ 2 ^ n = rw e at h in
      view-access_after_above n (next_level lib level) (store_level db lib false n 0 level a) k
        (fits_above n level fits) (omega (arith, pow-suc_two n))
      ∙ view-store_level n 0 level a k
      ∙ row-beyond (2 ^ n + 0) k level (shown a k) (omega (arith, pow-suc_two n))

  view-access_after_top :
      (n j : ℕ) (level : List H256) (a : Access db lib)
      → length level ≤ 2 ^ n
      → shown (access_after db lib false (suc n) level a) (2 ^ n + j)
        ≡ or_else (get_elem? level j) (shown a (2 ^ n + j))
  unfolding access_after
  view-access_after_top n j level a f =
      let start : 2 ^ n + 0 ≡ 2 ^ n = omega arith in
      let place : 2 ^ n + j - 2 ^ n ≡ j = omega arith in
      view-access_after_above n (next_level lib level) (store_level db lib false n 0 level a)
        (2 ^ n + j) (fits_above n level f) (omega arith)
      ∙ view-store_level n 0 level a (2 ^ n + j)
      ∙ rw (start, place) (row-from (2 ^ n) j (get_elem? level j) (shown a (2 ^ n + j)))

  -- After the rows below depth `n + 1` are written, the index `2 ^ m + j` shows the hash `j` of
  -- the level that has depth `m`.
  pub view-access_after :
      (n m j : ℕ) (level : List H256) (a : Access db lib)
      → m ≤ n
      → j < 2 ^ m
      → length level ≤ 2 ^ n
      → shown (access_after db lib false (suc n) level a) (2 ^ m + j)
        ≡ or_else (get_elem? (level_from lib (n - m) level) j) (shown a (2 ^ m + j))
  unfolding access_after level_from
  view-access_after zero m j level a h p f =
      let e : m ≡ 0 = omega arith in rw e (view-access_after_top 0 j level a f)
  view-access_after (suc n) m j level a h p f = elim (Bool-cases (m == suc n)) [
    | inl same ↦
        let e : m ≡ suc n = (==_iff m (suc n)).0 same in
        let none_left : suc n - suc n ≡ 0 = omega arith in
        rw (e, none_left) (view-access_after_top (suc n) j level a f)
    | inr other ↦
        let le : m ≤ n = ground arith in
        let e : suc n - m ≡ suc (n - m) = omega arith in
        let later = next_level lib level in
        rw e (
          view-access_after n m j later (store_level db lib false (suc n) 0 level a) le p
            (length-next_level-le lib n level f)
          ∙ ap (or_else (get_elem? (level_from lib (n - m) later) j)) (
              view-store_level (suc n) 0 level a (2 ^ m + j)
              ∙ row-below (2 ^ suc n + 0) (2 ^ m + j) level (shown a (2 ^ m + j))
                  (omega (arith, pow_mono (suc m) (suc n) (omega arith), pow-suc_two m))))
  ]

  abbrev Coherent : Access db lib → Type 0
  Coherent a = IsCoherent db (h256_serde lib) flatten_array lib.default a w

  store_level-IsCoherent :
      (only_root : Bool) (level i : ℕ) (hashes : List H256) (a : Access db lib)
      → level < 32
      → i + length hashes ≤ 2 ^ level
      → Coherent a
      → Coherent (store_level db lib only_root level i hashes a)
  unfolding store_level
  store_level-IsCoherent only_root level i [] a h f c = c
  store_level-IsCoherent true level i (x ∷ hashes) a h f c =
      store_level-IsCoherent true level (suc i) hashes a h (omega arith) c
  store_level-IsCoherent false level i (x ∷ hashes) a h f c =
      store_level-IsCoherent false level (suc i) hashes (set_entry a (shl 1 level + i) x) h
        (omega arith)
        (set_entry-IsCoherent db (h256_serde lib) flatten_array lib.default a w (shl 1 level + i) x
          (key_fits level i h (omega arith)) tt c)
    where
      key_fits : (level i : ℕ) → level < 32 → i < 2 ^ level → shl 1 level + i < 2 ^ 32
      key_fits level i h f = omega (arith, pow_mono (suc level) 32 h, pow-suc_two level)

  pub access_after-IsCoherent :
      (only_root : Bool) (n : ℕ) (level : List H256) (a : Access db lib)
      → n ≤ 32
      → length level ≤ 2 ^ (n - 1)
      → Coherent a
      → Coherent (access_after db lib only_root n level a)
  unfolding access_after
  access_after-IsCoherent only_root zero level a h f c = c
  access_after-IsCoherent only_root (suc n) level a h f c =
      let e : suc n - 1 ≡ n = omega arith in
      let fits : length level ≤ 2 ^ n = rw e at f in
      access_after-IsCoherent only_root n (next_level lib level)
        (store_level db lib only_root n 0 level a) (omega arith) (fits_above n level fits)
        (store_level-IsCoherent only_root n 0 level a (omega arith) (omega arith) c)
