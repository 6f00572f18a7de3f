-- ===== src/Rainblock/Codec/Keys.antt =====
-- from_mpt_key and to_mpt_key of asb-authdb/rainblock-trie/src/nibble.rs undo each other.
use extended_hypertrie_authe.Prelude.{
  ℕ, zero, suc, ◌+◌, ◌*◌, ◌/◌, ◌%◌, ◌^◌, ◌<◌, [], ◌∷◌, ◌++◌, some, Bool, true, false, ◌==◌, ◌≡◌,
  refl, ap, ap₂, ◌∙◌, arith, length, All, All-append, shl,
}
use extended_hypertrie_authe.Prelude.Bits.{bit_or_fields}
use extended_hypertrie_authe.Serde.{Bytes}
use extended_hypertrie_authe.Rainblock.Nibble.{
  Nibbles, from_hi, from_lo, combine_pair, combine_all, bytes_to_nibble_list, mpt_prefix,
  to_mpt_key, from_mpt_key, from_nibbles,
}
use extended_hypertrie_authe.Rainblock.Content.Keys.{from_lo-mod}

combine_pair_sum : (hi lo : ℕ) → hi < 16 → lo < 16 → combine_pair hi lo ≡ hi * 16 + lo
unfolding combine_pair
combine_pair_sum hi lo h l =
    let same : shl hi 4 % 256 ≡ hi * 2 ^ 4 = omega (arith, h) in rw same (bit_or_fields 4 hi lo l)

nibbles_of_pair :
    (hi lo : ℕ)
    → hi < 16
    → lo < 16
    → (from_hi (combine_pair hi lo) ≡ hi) × (from_lo (combine_pair hi lo) ≡ lo)
unfolding from_hi
nibbles_of_pair hi lo h l =
    let e = combine_pair_sum hi lo h l in
    (omega (arith, e, h, l), omega (arith, e, h, l, from_lo-mod (combine_pair hi lo)))

-- An even number of nibbles makes bytes, which have the same nibbles.
combine_all-total :
    (nibbles : Nibbles) (half : ℕ)
    → length nibbles ≡ half + half
    → (bytes : Bytes) × (combine_all nibbles ≡ some bytes)
      × (All (λ (i : ℕ). i < 16) nibbles → bytes_to_nibble_list bytes ≡ nibbles)
unfolding combine_all bytes_to_nibble_list
combine_all-total [] half e = ([], refl, λ h. refl)
combine_all-total (hi ∷ []) half e = absurd (omega (arith, e))
combine_all-total (hi ∷ lo ∷ rest) zero e = absurd (omega (arith, e))
combine_all-total (hi ∷ lo ∷ rest) (suc half) e =
    let (bytes, runs, back) = combine_all-total rest half (omega (arith, e)) in
    (
      combine_pair hi lo ∷ bytes,
      rw runs refl,
      λ h.
          let (first, second) = nibbles_of_pair hi lo h.0 h.1.0 in
          ap₂ (λ (i : ℕ) (k : Nibbles). i ∷ k) first
            (ap₂ (λ (i : ℕ) (k : Nibbles). i ∷ k) second (back h.1.1)),
    )

small-prefix : (odd leaf : Bool) → All (λ (i : ℕ). i < 16) (mpt_prefix odd leaf)
unfolding mpt_prefix
small-prefix false false = (omega (arith), (omega (arith), tt))
small-prefix true false = (omega (arith), tt)
small-prefix false true = (omega (arith), (omega (arith), tt))
small-prefix true true = (omega (arith), tt)

from_nibbles-prefix :
    (odd leaf : Bool) (key : Nibbles) → from_nibbles (mpt_prefix odd leaf ++ key) ≡ some (key, leaf)
unfolding mpt_prefix from_nibbles
from_nibbles-prefix false false key = refl
from_nibbles-prefix true false key = refl
from_nibbles-prefix false true key = refl
from_nibbles-prefix true true key = refl

prefixed :
    (odd leaf : Bool) (key : Nibbles) (half : ℕ)
    → length (mpt_prefix odd leaf ++ key) ≡ half + half
    → (bytes : Bytes) × (combine_all (mpt_prefix odd leaf ++ key) ≡ some bytes)
      × (All (λ (i : ℕ). i < 16) key → from_mpt_key bytes ≡ some (key, leaf))
unfolding from_mpt_key
prefixed odd leaf key half e =
    let (bytes, runs, back) = combine_all-total (mpt_prefix odd leaf ++ key) half e in
    (
      bytes,
      runs,
      λ h.
          ap from_nibbles (
            back
              (All-append (λ (i : ℕ). i < 16) (mpt_prefix odd leaf) key (small-prefix odd leaf) h))
          ∙ from_nibbles-prefix odd leaf key,
    )

even_length :
    (odd leaf : Bool) (key : Nibbles)
    → (length key % 2 == 1) ≡ odd
    → (half : ℕ) × (length (mpt_prefix odd leaf ++ key) ≡ half + half)
unfolding mpt_prefix
even_length false false key e = (length key / 2 + 1, ground arith)
even_length true false key e = (length key / 2 + 1, ground arith)
even_length false true key e = (length key / 2 + 1, ground arith)
even_length true true key e = (length key / 2 + 1, ground arith)

-- `to_mpt_key` returns for every key, and `from_mpt_key` gives back the key and the mark of a leaf
-- where the key has nibbles below 16.
pub from_mpt_key-to_mpt_key :
    (key : Nibbles) (leaf : Bool)
    → (bytes : Bytes) × (to_mpt_key key leaf ≡ some bytes)
      × (All (λ (i : ℕ). i < 16) key → from_mpt_key bytes ≡ some (key, leaf))
unfolding to_mpt_key
from_mpt_key-to_mpt_key key leaf =
    let odd = length key % 2 == 1 in
    let (half, e) = even_length odd leaf key refl in prefixed odd leaf key half e
