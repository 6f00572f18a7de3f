-- ===== src/MultiLayer/Key/Path.antt =====
-- The path of a key through the trees, where the levels are whole bytes of the key.
use extended_hypertrie_authe.Prelude.{
  ℕ, zero, suc, ◌+◌, ◌*◌, ◌≤◌, ◌<◌, List, [], ◌∷◌, ◌++◌, none, some, leb, leb→le, length, take,
  drop, replicate, ◌≡◌, refl, ap, ap₂, sym, ◌∙◌, arith, length-drop, take-append-drop, Bool-cases,
  inl, inr, drop-drop, drop-all, append_inj, get_or,
}
use native.Mathlib.Nat.{mod-eq_of_lt}
use extended_hypertrie_authe.Serde.{Bytes}
use extended_hypertrie_authe.Serde.BigEndian.{be_value, be_value_inj}
use extended_hypertrie_authe.MultiLayer.Key.{Key, indices, tree_at_level}
use extended_hypertrie_authe.MultiLayer.Key.Index.{
  window, AreBytes, take-short, take-long, length-window, window-AreBytes, window-lt,
  index_at_level-window,
}

-- The numbers in the bytes of the levels from `first` on.
pub level_values : ℕ → Bytes → ℕ → ℕ → List ℕ
level_values k bytes first zero = []
level_values k bytes first (suc count) =
    be_value (window bytes (k * first) k) ∷ level_values k bytes (suc first) count

module _ (k : ℕ) (pos : 0 < k) (small : k ≤ 4) where
  indices-eq :
      (key : Key) (first count : ℕ)
      → AreBytes key.bytes
      → k * (first + count) ≤ length key.bytes + k
      → indices (8 * k) key first count ≡ some (level_values k key.bytes first count)
  unfolding indices level_values
  indices-eq key first zero f h = refl
  indices-eq key first (suc count) f h =
      rw (index_at_level-window k key first f pos small (grind arith)) (
        rw (indices-eq key (suc first) count f (grind arith)) (
          ap (λ v. some (v ∷ level_values k key.bytes (suc first) count))
            (mod-eq_of_lt (window-lt key.bytes (k * first) k f small))))

  -- Equal windows show equal bytes.
  take_of_window :
      (xs ys : Bytes)
      → length xs ≡ length ys
      → take k (xs ++ replicate 16 0) ≡ take k (ys ++ replicate 16 0)
      → take k xs ≡ take k ys
  take_of_window xs ys e h = elim (Bool-cases (leb k (length xs))) [
    | inl le ↦
        let long = leb→le k (length xs) le in
        sym (take-long k xs (replicate 16 0) long)
        ∙ h
        ∙ take-long k ys (replicate 16 0) (omega (arith, e))
    | inr gt ↦
        let short : length xs ≤ k = ground arith in
        ap (take k) (
          (append_inj xs ys e (
            sym (take-short k xs (replicate 16 0) short)
            ∙ h
            ∙ take-short k ys (replicate 16 0) (omega (arith, e)))).0)
  ]

  drop_of_values :
      (xs ys : Bytes) (first count : ℕ)
      → AreBytes xs
      → AreBytes ys
      → length xs ≡ length ys
      → length xs ≤ k * (first + count)
      → level_values k xs first count ≡ level_values k ys first count
      → drop (k * first) xs ≡ drop (k * first) ys
  unfolding level_values
  drop_of_values xs ys first zero f g e h p =
      drop-all (k * first) xs (omega arith) ∙ sym (drop-all (k * first) ys (omega (arith, e)))
  drop_of_values xs ys first (suc count) f g e h p =
      let start = k * first in
      let next : k * suc first ≡ start + k = omega arith in
      let rest : drop (start + k) xs ≡ drop (start + k) ys =
        rw next at (drop_of_values xs ys (suc first) count f g e (grind arith) (ap (drop 1) p)) in
      let width = λ (zs : Bytes). length-window zs start k (omega arith) in
      let same : window xs start k ≡ window ys start k =
        be_value_inj (window xs start k) (window ys start k) (window-AreBytes xs start k f)
          (window-AreBytes ys start k g) (width xs ∙ sym (width ys)) (ap (λ l. get_or l 0 0) p) in
      sym (take-append-drop k (drop start xs))
      ∙ ap₂ (λ a b. a ++ b)
          (take_of_window (drop start xs) (drop start ys)
            (length-drop start xs ∙ omega (arith, e) ∙ sym (length-drop start ys)) same)
          (drop-drop start k xs ∙ rest ∙ sym (drop-drop start k ys))
      ∙ take-append-drop k (drop start ys)

-- The path down to a level that the key reaches, which is `k * level < length + k`, is there.
pub tree_at_level-eq :
    (k : ℕ) (key : Key) (level : ℕ)
    → 0 < k
    → k ≤ 4
    → AreBytes key.bytes
    → k * level ≤ length key.bytes + k
    → tree_at_level (8 * k) key level ≡ some (level_values k key.bytes 0 level)
unfolding tree_at_level
tree_at_level-eq k key level pos small f h = indices-eq k pos small key 0 level f (omega (arith, h))

-- With levels of one to four bytes, two keys of one length that have the same path, down to the
-- level that covers them, are equal.
pub tree_at_level_inj :
    (k : ℕ) (key other : Key) (level : ℕ)
    → 0 < k
    → k ≤ 4
    → AreBytes key.bytes
    → AreBytes other.bytes
    → length key.bytes ≡ length other.bytes
    → length key.bytes ≤ k * level
    → k * level ≤ length key.bytes + k
    → tree_at_level (8 * k) key level ≡ tree_at_level (8 * k) other level
    → key ≡ other
tree_at_level_inj k key other level pos small f g e enough reach h =
    let values : level_values k key.bytes 0 level ≡ level_values k other.bytes 0 level =
      ap (λ o. elim o [ none ↦ [] | some path ↦ path ])
        (sym (tree_at_level-eq k key level pos small f reach)
          ∙ h
          ∙ tree_at_level-eq k other level pos small g (omega (arith, e))) in
    let all : k * 0 ≡ 0 = omega arith in
    ap (λ (b : Bytes). let k : Key = record { bytes = b } in k)
      (rw all at
        (drop_of_values k pos small key.bytes other.bytes 0 level f g e (omega arith) values))
