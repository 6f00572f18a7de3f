-- ===== src/MultiLayer/Key/Unaligned.antt =====
-- The index at a level that starts inside a byte of the key.
use extended_hypertrie_authe.Prelude.{
  ℕ, ◌+◌, ◌-◌, ◌*◌, ◌/◌, ◌%◌, ◌^◌, ◌≤◌, ◌<◌, none, some, false, length, ◌==◌, ◌≡◌, refl, ap, sym,
  ◌∙◌, arith, shr, shr-lt,
}
use extended_hypertrie_authe.Serde.BigEndian.{
  from_be_bytes, be_value, be_value-lt, from_be_bytes-eq,
}
use extended_hypertrie_authe.MultiLayer.Key.{Key, mid}
use extended_hypertrie_authe.MultiLayer.Key.Index.{
  window, AreBytes, entry_at-eq, length-window, window-AreBytes,
}

-- What `mid` returns of `count` bits, 8 to 128, has `start % 8` bits less than were asked for. So
-- from a start inside a byte, as the odd levels have with 12 or 20 bits to a level, the highest
-- indices are never returned.
pub mid-lt_unaligned :
    (key : Key) (start count value : ℕ)
    → AreBytes key.bytes
    → start / 8 ≤ length key.bytes
    → 8 ≤ count
    → count ≤ 128
    → mid key start count ≡ some value
    → value < 2 ^ (count - start % 8)
unfolding mid
mid-lt_unaligned key start count value f h pos small e =
    let some_length : (count == 0) ≡ false = ground arith in
    let n = count - start % 8 in
    let bit : (start - start / 8 * 8 + (128 - count)) % 128 ≡ 128 - n = omega arith in
    let all = window key.bytes (start / 8) 16 in
    let width = length-window key.bytes (start / 8) 16 (omega arith) in
    let bound : be_value all < 256 ^ 16 =
      rw width at (be_value-lt all (window-AreBytes key.bytes (start / 8) 16 f)) in
    let result : mid key start count ≡ some (shr (from_be_bytes all) (128 - n)) =
      rw some_length (rw (entry_at-eq key (start / 8) h) (rw bit refl)) in
    let same : shr (be_value all) (128 - n) ≡ value =
      ap (λ o. elim o [ none ↦ 0 | some v ↦ v ]) (rw (from_be_bytes-eq all) at (sym result ∙ e)) in
    let left : 128 - (128 - n) ≡ n = omega arith in
    rw (left, same) at (shr-lt 128 (be_value all) (128 - n) (omega arith) bound)
