-- ===== src/MultiLayer/Key/Index.antt =====
-- The index at a level where the levels are whole bytes of the key.
use Prim.Native.Nat.{min}
use extended_hypertrie_authe.Prelude.{
  ℕ, zero, suc, ◌+◌, ◌-◌, ◌*◌, ◌/◌, ◌%◌, ◌^◌, ◌≤◌, ◌<◌, [], ◌∷◌, ◌++◌, some, true, false, not, leb,
  ◌==◌, length, take, drop, replicate, if◌then◌else◌, ◌≡◌, refl, ap, sym, ◌∙◌, arith, pow_mono,
  length-append, length-take, length-drop, length-replicate, take-append-drop, All, All-take,
  All-drop, All-append, All-replicate, Bool-cases, inl, inr, leb→le, leb,
}
use native.Mathlib.Nat.{mul-add-div_right, div-eq_of_lt, mod-eq_of_lt}
use extended_hypertrie_authe.Serde.{Bytes}
use extended_hypertrie_authe.Serde.BigEndian.{
  be_value, from_be_bytes-eq, be_value-append, be_value-lt, pow-byte,
}
use extended_hypertrie_authe.MultiLayer.Key.{Key, entry_at, mid, index_at_level}

-- The `k` bytes from a place on, with zeros for the bytes beyond the end of the key.
abbrev pub window : Bytes → ℕ → ℕ → Bytes
window bytes start k = take k (drop start bytes ++ replicate 16 0)

abbrev IsByte : ℕ → Type 0
IsByte b = b < 256

abbrev pub AreBytes : Bytes → Type 0
AreBytes bytes = All IsByte bytes

pub take-short :
    (n : ℕ) (xs ys : Bytes) → length xs ≤ n → take n (xs ++ ys) ≡ xs ++ take (n - length xs) ys
take-short n [] ys h = let e : n - 0 ≡ n = omega arith in rw e
take-short zero (x ∷ xs) ys h = elim h [ ]
take-short (suc n) (x ∷ xs) ys h =
    let e : suc n - suc (length xs) ≡ n - length xs = omega arith in
    rw e (ap (λ l. x ∷ l) (take-short n xs ys (omega arith)))

pub take-long : (n : ℕ) (xs ys : Bytes) → n ≤ length xs → take n (xs ++ ys) ≡ take n xs
take-long zero xs ys h = refl
take-long (suc n) [] ys h = elim h [ ]
take-long (suc n) (x ∷ xs) ys h = ap (λ l. x ∷ l) (take-long n xs ys (omega arith))

take-replicate : (n m : ℕ) (x : ℕ) → n ≤ m → take n (replicate m x) ≡ replicate n x
take-replicate zero m x h = refl
take-replicate (suc n) zero x h = elim h [ ]
take-replicate (suc n) (suc m) x h = ap (λ l. x ∷ l) (take-replicate n m x (omega arith))

take-take : (n m : ℕ) (xs : Bytes) → n ≤ m → take n (take m xs) ≡ take n xs
take-take zero m xs h = refl
take-take (suc n) zero xs h = elim h [ ]
take-take (suc n) (suc m) [] h = refl
take-take (suc n) (suc m) (x ∷ xs) h = ap (λ l. x ∷ l) (take-take n m xs (omega arith))

take-all : (n : ℕ) (xs : Bytes) → length xs ≤ n → take n xs ≡ xs
take-all zero [] h = refl
take-all zero (x ∷ xs) h = elim h [ ]
take-all (suc n) [] h = refl
take-all (suc n) (x ∷ xs) h = ap (λ l. x ∷ l) (take-all n xs (omega arith))

-- What is resized to 16 bytes.
resized :
    (entry : Bytes)
    → length entry ≤ 16
    → (if not (length entry == 16) then entry ++ replicate (16 - length entry) 0 else entry)
      ≡ take 16 (entry ++ replicate 16 0)
resized entry h = elim (Bool-cases (length entry == 16)) [
  | inl full ↦
      rw full (sym (take-long 16 entry (replicate 16 0) (ground arith) ∙ take-all 16 entry h))
  | inr less ↦ rw less (
      sym (
        take-short 16 entry (replicate 16 0) h
        ∙ ap (λ l. entry ++ l) (take-replicate (16 - length entry) 16 0 (omega arith))))
]

take-resized :
    (n : ℕ) (rest : Bytes)
    → n ≡ min 16 (length rest)
    → take 16 (take n rest ++ replicate 16 0) ≡ take 16 (rest ++ replicate 16 0)
take-resized n rest e = elim (Bool-cases (leb 16 (length rest))) [
  | inl le ↦
      let long : 16 ≤ length rest = leb→le 16 (length rest) le in
      let n16 : n ≡ 16 = omega (arith, e) in
      rw n16 (
        take-long 16 (take 16 rest) (replicate 16 0) (rw (length-take 16 rest) (omega arith))
        ∙ take-take 16 16 rest (omega arith)
        ∙ sym (take-long 16 rest (replicate 16 0) long))
  | inr gt ↦ let all : length rest ≤ n = ground arith in rw (take-all n rest all)
]

-- The entry is the window of 16 bytes.
pub entry_at-eq :
    (key : Key) (start : ℕ)
    → start ≤ length key.bytes
    → entry_at key start ≡ some (window key.bytes start 16)
unfolding entry_at
entry_at-eq key start h =
    let end = min (start + 16) (length key.bytes) in
    let inside : leb start end ≡ true = ground arith in
    let rest = drop start key.bytes in
    let count : end - start ≡ min 16 (length rest) =
      rw (length-drop start key.bytes) (omega arith) in
    rw inside (
      ap some (
        resized (take (end - start) rest) (rw (length-take (end - start) rest) (omega arith))
        ∙ take-resized (end - start) rest count))

pub length-window : (bytes : Bytes) (start k : ℕ) → k ≤ 16 → length (window bytes start k) ≡ k
length-window bytes start k h =
    length-take k (drop start bytes ++ replicate 16 0)
    ∙ omega
        (arith, length-append (drop start bytes) (replicate 16 0), length-replicate {A = ℕ} 16 0)

pub window-AreBytes :
    (bytes : Bytes) (start k : ℕ) → AreBytes bytes → AreBytes (window bytes start k)
window-AreBytes bytes start k f = All-take IsByte k (drop start bytes ++ replicate 16 0) (
    All-append IsByte (drop start bytes) (replicate 16 0) (All-drop IsByte start bytes f)
      (All-replicate IsByte 16 0 (omega arith)))

-- The high bytes of a value.
be_value-high :
    (k m : ℕ) (bytes : Bytes)
    → AreBytes bytes
    → length bytes ≡ k + m
    → be_value bytes / 256 ^ m ≡ be_value (take k bytes)
be_value-high k m bytes f e =
    let low = drop k bytes in
    let high = take k bytes in
    let width : length low ≡ m = rw (length-drop k bytes) (omega (arith, e)) in
    let below : be_value low < 256 ^ m =
      rw width at (be_value-lt low (All-drop IsByte k bytes f)) in
    let split : be_value bytes ≡ be_value high * 256 ^ m + be_value low =
      ap be_value (sym (take-append-drop k bytes)) ∙ rw width at (be_value-append high low) in
    rw split (
      mul-add-div_right (omega arith) (be_value high) (be_value low)
      ∙ omega (arith, div-eq_of_lt below))

-- The bits from a byte on, a whole number of bytes long.
pub mid-window :
    (key : Key) (start k : ℕ)
    → AreBytes key.bytes
    → start ≤ length key.bytes
    → 0 < k
    → k ≤ 16
    → mid key (8 * start) (8 * k) ≡ some (be_value (window key.bytes start k))
unfolding mid
mid-window key start k f h pos small =
    let some_length : (8 * k == 0) ≡ false = ground arith in
    let byte : 8 * start / 8 ≡ start = omega arith in
    let amount : (8 * start - start * 8 + (128 - 8 * k)) % 128 ≡ 8 * (16 - k) = omega arith in
    let all = window key.bytes start 16 in
    rw some_length (
      rw byte (
        rw (entry_at-eq key start h) (
          ap some (
            rw amount (
              rw (pow-byte (16 - k)) (
                rw (from_be_bytes-eq all) (
                  be_value-high k (16 - k) all (window-AreBytes key.bytes start 16 f)
                    (length-window key.bytes start 16 (omega arith) ∙ omega arith)
                  ∙ ap be_value
                      (take-take k 16 (drop start key.bytes ++ replicate 16 0) small))))))))

pub window-lt :
    (bytes : Bytes) (start k : ℕ)
    → AreBytes bytes
    → k ≤ 4
    → be_value (window bytes start k) < 2 ^ 32
window-lt bytes start k f small =
    let width = length-window bytes start k (omega arith) in
    let bound =
      rw width at (be_value-lt (window bytes start k) (window-AreBytes bytes start k f)) in
    omega (arith, bound, sym (pow-byte k), pow_mono (8 * k) 32 (omega arith))

-- With levels of one to four bytes, the index at a level that starts inside the key or at its
-- end is the big-endian number in the level's bytes, with zeros for bytes beyond the end.
pub index_at_level-window :
    (k : ℕ) (key : Key) (level : ℕ)
    → AreBytes key.bytes
    → 0 < k
    → k ≤ 4
    → k * level ≤ length key.bytes
    → index_at_level (8 * k) key level ≡ some (be_value (window key.bytes (k * level) k))
unfolding index_at_level
index_at_level-window k key level f pos small h =
    let start : level * (8 * k) ≡ 8 * (k * level) = omega arith in
    let low = window-lt key.bytes (k * level) k f small in
    rw start (
      rw (mid-window key (k * level) k f h pos (omega arith))
        (ap some (mod-eq_of_lt (omega (arith, low)))))
