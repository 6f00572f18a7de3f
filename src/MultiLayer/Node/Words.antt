-- ===== src/MultiLayer/Node/Words.antt =====
-- The bytes of a node's field element.
use extended_hypertrie_authe.Prelude.{
  ℕ, zero, suc, ◌+◌, ◌-◌, ◌*◌, ◌/◌, ◌%◌, ◌^◌, ◌≤◌, ◌<◌, List, [], ◌∷◌, ◌++◌, some, true, leb, ltb,
  length, take, drop, replicate, ◌≡◌, refl, ap, ap₂, sym, ◌∙◌, arith, length-append, drop-drop,
  drop-append, take-append,
}
use extended_hypertrie_authe.Serde.{Bytes}
use extended_hypertrie_authe.Serde.BigEndian.{from_le_bytes-append, pow-byte}
use extended_hypertrie_authe.Serde.Uint.{to_le_bytes, from_le_bytes, length-to_le_bytes}
use extended_hypertrie_authe.MultiLayer.Node.{
  Node, copy_from_slice, low_bytes, copy_versions, as_fr_int, versions_from_fr_int,
}
use mathlib.Core.List.{append_assoc}
use native.Mathlib.Nat.{
  mod-eq_of_lt, pow-suc, div-add-mod, mod-lt, add-mul-mod_self_left, div-div-eq-div-mul,
}

pow-suc_byte : (n : ℕ) → 256 ^ suc n ≡ 256 * 256 ^ n
pow-suc_byte n = omega (arith, pow-suc 256 n)

pow_pos_byte : (n : ℕ) → 0 < 256 ^ n
pow_pos_byte zero = omega arith
pow_pos_byte (suc n) = omega (arith, pow-suc_byte n, pow_pos_byte n)

-- The low bytes of a number.
mod-byte : (p v : ℕ) → 0 < p → v % (256 * p) ≡ v % 256 + 256 * (v / 256 % p)
mod-byte p v pos =
    let low = v % 256 + 256 * (v / 256 % p) in
    let split : v ≡ low + 256 * p * (v / 256 / p) =
      omega (arith, ap (λ (t : ℕ). 256 * t) (div-add-mod (v / 256) p)) in
    let below : low < 256 * p = omega (arith, mod-lt (v / 256) pos) in
    ap (λ (t : ℕ). t % (256 * p)) split
    ∙ add-mul-mod_self_left low (256 * p) (v / 256 / p)
    ∙ mod-eq_of_lt below

from_le_bytes-to_le_bytes_mod : (n v : ℕ) → from_le_bytes (to_le_bytes n v) ≡ v % 256 ^ n
unfolding from_le_bytes to_le_bytes
from_le_bytes-to_le_bytes_mod zero v = omega arith
from_le_bytes-to_le_bytes_mod (suc n) v =
    rw (pow-suc_byte n)
      (sym (mod-byte (256 ^ n) v (pow_pos_byte n) ∙ rw (from_le_bytes-to_le_bytes_mod n (v / 256))))

take-to_le_bytes : (m n v : ℕ) → take n (to_le_bytes (m + n) v) ≡ to_le_bytes n v
unfolding to_le_bytes
take-to_le_bytes m zero v = refl
take-to_le_bytes m (suc n) v =
    let e : m + suc n ≡ suc (m + n) = omega arith in
    rw e (ap (λ l. v % 256 ∷ l) (take-to_le_bytes m n (v / 256)))

drop-to_le_bytes : (m n v : ℕ) → drop n (to_le_bytes (m + n) v) ≡ to_le_bytes m (v / 256 ^ n)
unfolding to_le_bytes
drop-to_le_bytes m zero v =
    let e : v / 1 ≡ v = omega arith in let f : m + 0 ≡ m = omega arith in rw (e, f)
drop-to_le_bytes m (suc n) v =
    let e : m + suc n ≡ suc (m + n) = omega arith in
    rw e (
      drop-to_le_bytes m n (v / 256)
      ∙ ap (to_le_bytes m)
          (div-div-eq-div-mul v 256 (256 ^ n) ∙ ap (λ (t : ℕ). v / t) (sym (pow-suc_byte n))))

low_bytes-eq : (v : ℕ) → low_bytes v ≡ to_le_bytes 5 v
unfolding low_bytes
low_bytes-eq v = take-to_le_bytes 3 5 v

length-low_bytes : (v : ℕ) → length (low_bytes v) ≡ 5
length-low_bytes v = rw (low_bytes-eq v) (length-to_le_bytes 5 v)

drop-replicate : (n m x : ℕ) → drop n (replicate (n + m) x) ≡ replicate m x
drop-replicate zero m x = let e : 0 + m ≡ m = omega arith in rw e refl
drop-replicate (suc n) m x =
    let e : suc n + m ≡ suc (n + m) = omega arith in rw e (drop-replicate n m x)

-- A copy over the zeros behind a prefix.
copy-behind :
    (before slice : Bytes) (m : ℕ)
    → copy_from_slice (before ++ replicate (length slice + m) 0) (length before) slice
      ≡ before ++ slice ++ replicate m 0
unfolding copy_from_slice
copy-behind before slice m =
    let zeros = replicate (length slice + m) 0 in
    ap₂ (λ a b. a ++ slice ++ b) (take-append before zeros)
      (sym (drop-drop (length before) (length slice) (before ++ zeros))
        ∙ ap (drop (length slice)) (drop-append before zeros)
        ∙ drop-replicate (length slice) m 0)

-- The bytes of the versions one after the other.
unfoldable packed_bytes : List ℕ → Bytes
packed_bytes [] = []
packed_bytes (v ∷ vs) = low_bytes v ++ packed_bytes vs

copy_versions-eq :
    (vs : List ℕ) (before : Bytes) (m : ℕ)
    → copy_versions (before ++ replicate (5 * length vs + m) 0) (length before) vs
      ≡ before ++ (packed_bytes vs ++ replicate m 0)
unfolding copy_versions packed_bytes
copy_versions-eq [] before m =
    let e : 5 * 0 + m ≡ m = omega arith in ap (λ k. before ++ replicate k 0) e
copy_versions-eq (v ∷ vs) before m =
    let width = length-low_bytes v in
    let e : 5 * suc (length vs) + m ≡ length (low_bytes v) + (5 * length vs + m) =
      omega (arith, width) in
    let next : length before + 5 ≡ length (before ++ low_bytes v) =
      sym (length-append before (low_bytes v) ∙ omega (arith, width)) in
    rw e (
      rw (copy-behind before (low_bytes v) (5 * length vs + m)) (
        rw next (
          copy_versions-eq vs (before ++ low_bytes v) m
          ∙ append_assoc before (low_bytes v) (packed_bytes vs ++ replicate m 0)
          ∙ ap (λ l. before ++ l)
              (sym (append_assoc (low_bytes v) (packed_bytes vs) (replicate m 0))))))

-- Digits of `version_bits` bits, the lowest first.
unfoldable pub packed : List ℕ → ℕ
packed [] = 0
packed (v ∷ vs) = v % 2 ^ 40 + 2 ^ 40 * packed vs

from_le_bytes-zeros : (m : ℕ) → from_le_bytes (replicate m 0) ≡ 0
unfolding from_le_bytes
from_le_bytes-zeros zero = refl
from_le_bytes-zeros (suc m) = omega (arith, from_le_bytes-zeros m)

from_le_bytes-packed :
    (vs : List ℕ) (m : ℕ) → from_le_bytes (packed_bytes vs ++ replicate m 0) ≡ packed vs
unfolding packed_bytes packed
from_le_bytes-packed [] m = from_le_bytes-zeros m
from_le_bytes-packed (v ∷ vs) m =
    let rest = packed_bytes vs ++ replicate m 0 in
    let digit : from_le_bytes (low_bytes v) ≡ v % 256 ^ 5 =
      ap from_le_bytes (low_bytes-eq v) ∙ from_le_bytes-to_le_bytes_mod 5 v in
    rw (append_assoc (low_bytes v) (packed_bytes vs) (replicate m 0)) (
      from_le_bytes-append (low_bytes v) rest
      ∙ rw (length-low_bytes v) (rw digit (rw (from_le_bytes-packed vs m))))

-- The first five bytes are written last.
copy-front :
    (slice rest : Bytes)
    → length slice ≡ 5
    → copy_from_slice (replicate 5 0 ++ rest) 0 slice ≡ slice ++ rest
unfolding copy_from_slice
copy-front slice rest e =
    let skip : 0 + length slice ≡ length (replicate {A = ℕ} 5 0) = omega (arith, e) in
    ap (λ n. [] ++ slice ++ drop n (replicate 5 0 ++ rest)) skip
    ∙ ap (λ l. slice ++ l) (drop-append (replicate 5 0) rest)

-- The field element of a node is the number with its versions as digits: the tree's version
-- lowest, then the key versions.
pub as_fr_int-packed :
    (node : Node)
    → length node.key_versions.versions ≤ 5
    → as_fr_int node ≡ some (packed (node.tree_version ∷ node.key_versions.versions))
unfolding as_fr_int packed_bytes
as_fr_int-packed node few =
    let vs = node.key_versions.versions in
    let m = 25 - 5 * length vs in
    let enough : leb (length vs) 5 ≡ true = ground arith in
    let room : 27 ≡ 5 * length vs + (m + 2) = omega arith in
    let keys : copy_versions (replicate 32 0) 5 vs
        ≡ replicate 5 0 ++ (packed_bytes vs ++ replicate (m + 2) 0) =
      ap (λ n. copy_versions (replicate 5 0 ++ replicate n 0) 5 vs) room
      ∙ copy_versions-eq vs (replicate 5 0) (m + 2) in
    rw enough (
      rw keys (
        ap some (
          ap from_le_bytes (
            copy-front (low_bytes node.tree_version) (packed_bytes vs ++ replicate (m + 2) 0)
              (length-low_bytes node.tree_version)
            ∙ sym (
                append_assoc (low_bytes node.tree_version) (packed_bytes vs) (replicate (m + 2) 0)))
          ∙ from_le_bytes-packed (node.tree_version ∷ vs) (m + 2))))

-- A version is read as a digit.
pub read_digit :
    (fr_int index : ℕ)
    → index < 6
    → versions_from_fr_int fr_int index ≡ some (fr_int / 2 ^ (40 * index) % 2 ^ 40)
unfolding versions_from_fr_int copy_from_slice
read_digit fr_int index h =
    let inside : ltb index 6 ≡ true = ground arith in
    let five : (index + 1) * 5 - index * 5 ≡ 5 = omega arith in
    let start : index * 5 ≡ 5 * index = omega arith in
    let words : 32 ≡ 32 - 5 * index + 5 * index = omega arith in
    let rest : 32 - 5 * index ≡ 27 - 5 * index + 5 = omega arith in
    let digit : take 5 (drop (5 * index) (to_le_bytes 32 fr_int))
        ≡ to_le_bytes 5 (fr_int / 256 ^ (5 * index)) =
      ap (λ n. take 5 (drop (5 * index) (to_le_bytes n fr_int))) words
      ∙ ap (take 5) (drop-to_le_bytes (32 - 5 * index) (5 * index) fr_int)
      ∙ ap (λ n. take 5 (to_le_bytes n (fr_int / 256 ^ (5 * index)))) rest
      ∙ take-to_le_bytes (27 - 5 * index) 5 (fr_int / 256 ^ (5 * index)) in
    let power : 2 ^ (40 * index) ≡ 256 ^ (5 * index) =
      ap (λ n. 2 ^ n) (omega arith) ∙ pow-byte (5 * index) in
    let value = fr_int / 256 ^ (5 * index) in
    rw (inside, five, start, digit, power)
      (ap some (
        from_le_bytes-append (to_le_bytes 5 value)
          (drop (0 + length (to_le_bytes 5 value)) (replicate 8 0))
        ∙ rw (length-to_le_bytes 5 value)
            (omega (arith, from_le_bytes-zeros 3, from_le_bytes-to_le_bytes_mod 5 value))))
