-- ===== src/Rainblock/Content/Keys.antt =====
-- Byte keys and their nibbles: bytes_to_nibble_list of asb-authdb/rainblock-trie/src/nibble.rs.
use extended_hypertrie_authe.Prelude.{
  ℕ, ◌/◌, ◌%◌, ◌<◌, [], ◌∷◌, ◌≡◌, refl, arith, All, list_beq, list_beq_iff, Bool_eq_of_iff, ap, ap₂,
}
use extended_hypertrie_authe.Prelude.Bits.{bit_and_nibble}
use extended_hypertrie_authe.Serde.{Bytes}
use extended_hypertrie_authe.Rainblock.Nibble.{bytes_to_nibble_list, from_hi, from_lo}

abbrev pub AreBytes : Bytes → Type 0
AreBytes = All (λ (b : ℕ). b < 256)

pub from_lo-mod : (b : ℕ) → from_lo b ≡ b % 16
unfolding from_lo
from_lo-mod b = bit_and_nibble b

pub bytes_to_nibble_list-AreNibbles :
    (key : Bytes) → AreBytes key → All (λ (i : ℕ). i < 16) (bytes_to_nibble_list key)
unfolding bytes_to_nibble_list from_hi
bytes_to_nibble_list-AreNibbles [] h = tt
bytes_to_nibble_list-AreNibbles (b ∷ key) h =
    (omega (arith, h.0), (omega (arith, from_lo-mod b), bytes_to_nibble_list-AreNibbles key h.1))

same_bytes : (a b : Bytes) → bytes_to_nibble_list a ≡ bytes_to_nibble_list b → a ≡ b
unfolding bytes_to_nibble_list from_hi
same_bytes [] [] h = refl
same_bytes [] (y ∷ b) h = cc
same_bytes (x ∷ a) [] h = cc
same_bytes (x ∷ a) (y ∷ b) h =
    let rest : bytes_to_nibble_list a ≡ bytes_to_nibble_list b = cc in
    let hi : x / 16 ≡ y / 16 = cc in
    let lo : from_lo x ≡ from_lo y = cc in
    ap₂ (λ (i : ℕ) (k : Bytes). i ∷ k) (omega (arith, hi, lo, from_lo-mod x, from_lo-mod y))
      (same_bytes a b rest)

-- Two keys have the same nibbles exactly when they are the same.
pub list_beq-bytes_to_nibble_list :
    (a b : Bytes) → list_beq (bytes_to_nibble_list a) (bytes_to_nibble_list b) ≡ list_beq a b
list_beq-bytes_to_nibble_list a b =
    Bool_eq_of_iff (list_beq (bytes_to_nibble_list a) (bytes_to_nibble_list b)) (list_beq a b)
      (λ h.
        (list_beq_iff a b).1
          (same_bytes a b ((list_beq_iff (bytes_to_nibble_list a) (bytes_to_nibble_list b)).0 h)))
      (λ h. (list_beq_iff _ _).1 (ap bytes_to_nibble_list ((list_beq_iff a b).0 h)))
