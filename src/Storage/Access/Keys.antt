-- ===== src/Storage/Access/Keys.antt =====
-- The database keys of a family are distinct.
use extended_hypertrie_authe.Prelude.{
  ℕ, ◌%◌, ◌^◌, ◌<◌, ◌≡◌, ap, sym, ◌∙◌, Eq, list_beq, list_beq_iff, Bool_eq_of_iff,
  append_cancel_left, arith,
}
use extended_hypertrie_authe.Serde.{Bytes}
use extended_hypertrie_authe.Serde.Uint.{to_le_bytes, from_le_bytes, from_le_bytes-to_le_bytes}
use extended_hypertrie_authe.Storage.Layout.{Layout}
use extended_hypertrie_authe.Storage.Access.{to_be_bytes, compute_key}
use mathlib.Core.List.{reverse-reverse, reverse}

to_le_bytes_inj :
    (n x y : ℕ) → x < 256 ^ n → y < 256 ^ n → to_le_bytes n x ≡ to_le_bytes n y → x ≡ y
to_le_bytes_inj n x y p q h =
    sym (from_le_bytes-to_le_bytes n x p) ∙ ap from_le_bytes h ∙ from_le_bytes-to_le_bytes n y q

to_be_bytes_inj :
    (n x y : ℕ) → x < 256 ^ n → y < 256 ^ n → to_be_bytes n x ≡ to_be_bytes n y → x ≡ y
unfolding to_be_bytes
to_be_bytes_inj n x y p q h =
    to_le_bytes_inj n x y p q
      (sym (reverse-reverse (to_le_bytes n x)) ∙ ap reverse h ∙ reverse-reverse (to_le_bytes n y))

module _ {K : Type 0} (l : Layout K) where
  compute_key_inj :
      (p : Bytes) (j k : K) → l.Fits j → l.Fits k → compute_key l p j ≡ compute_key l p k → j ≡ k
  unfolding compute_key
  compute_key_inj p j k fj fk h = l.position_inj j k fj fk (
      omega (
        arith,
        l.position-lt j fj,
        l.position-lt k fk,
        to_be_bytes_inj 4 (l.position j % 2 ^ 32) (l.position k % 2 ^ 32) (omega arith)
            (omega arith) (append_cancel_left p h),
      ))

module _ {K : Type 0} ⦃e : Eq K⦄ (l : Layout K) where
  pub beq-compute_key :
      (p : Bytes) (j k : K)
      → l.Fits j
      → l.Fits k
      → list_beq (compute_key l p j) (compute_key l p k) ≡ e.beq j k
  beq-compute_key p j k fj fk =
      Bool_eq_of_iff _ _
        (λ h. (e.beq_iff j k).1 (compute_key_inj l p j k fj fk ((list_beq_iff _ _).0 h)))
        (λ h. (list_beq_iff _ _).1 (ap (compute_key l p) ((e.beq_iff j k).0 h)))
