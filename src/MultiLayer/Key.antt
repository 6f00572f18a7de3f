-- ===== src/MultiLayer/Key.antt =====
-- multi_layer_amt/key.rs: the bits of a key that choose the trees and the leaves on its path.
pub mod Index
pub mod Path
pub mod Unaligned
use Prim.Native.Nat.{min}
use extended_hypertrie_authe.Prelude.{
  ℕ, zero, suc, ◌+◌, ◌-◌, ◌*◌, ◌/◌, ◌%◌, ◌^◌, List, [], ◌∷◌, ◌++◌, Option, none, some, Bool, true,
  false, not, leb, ◌==◌, shr, length, take, drop, replicate, if◌then◌else◌,
}
use extended_hypertrie_authe.Prelude.Options.{◌>>=◌}
use extended_hypertrie_authe.Serde.{Bytes}
use extended_hypertrie_authe.Serde.BigEndian.{from_be_bytes}

-- `struct Key(pub Vec<u8>)`
pub record Key : Type 0 where
  pub bytes : Bytes

-- `self.0[start_byte..min(start_byte + 16, self.0.len())]`, resized to 16 bytes; `none` is a slice
-- that starts beyond the end.
unfoldable pub entry_at : Key → ℕ → Option Bytes
entry_at key start_byte =
    let end = min (start_byte + 16) (length key.bytes) in
    if leb start_byte end
    then (let entry = take (end - start_byte) (drop start_byte key.bytes) in
        some (if not (length entry == 16) then entry ++ replicate (16 - length entry) 0 else entry))
    else none

-- The shift is that of a `u128`, whose amount wraps.
unfoldable pub mid : Key → ℕ → ℕ → Option ℕ
mid key start length = if length == 0 then some 0 else (do
  let start_byte = start / 8
  let start_bit = start - start_byte * 8
  entry ← entry_at key start_byte
  some (shr (from_be_bytes entry) ((start_bit + (128 - length)) % 128)))

-- `DEPTHS` is 8, 12, 16 or 20 by the features of the build.
module _ (depths : ℕ) where
  unfoldable pub index_at_level : Key → ℕ → Option ℕ
  index_at_level key level = do
    let start = level * depths
    index ← mid key start depths
    some (index % 2 ^ 64)

  -- `(first..first + count).map(..)`, each index cut to a `u32`.
  unfoldable pub indices : Key → ℕ → ℕ → Option (List ℕ)
  indices key first zero = some []
  indices key first (suc count) = do
    index ← index_at_level key first
    rest ← indices key (suc first) count
    some (index % 2 ^ 32 ∷ rest)

  unfoldable pub tree_at_level : Key → ℕ → Option (List ℕ)
  tree_at_level key level = indices key 0 level
