-- ===== src/Rainblock/Nibble.antt =====
-- asb-authdb/rainblock-trie/src/nibble.rs and the two helpers of lib.rs. A nibble is its number.
use Prim.Native.Nat.{bit_and, bit_or}
use extended_hypertrie_authe.Prelude.{
  ℕ, ◌%◌, List, [], ◌∷◌, ◌++◌, Option, none, some, Bool, true, false, not, ◌==◌, length, shl, shr,
  if◌then◌else◌,
}
use extended_hypertrie_authe.Prelude.Options.{◌>>=◌}
use extended_hypertrie_authe.Serde.{Bytes}

abbrev pub Nibbles : Type 0
Nibbles = List ℕ

unfoldable pub from_hi : ℕ → ℕ
from_hi x = shr x 4

unfoldable pub from_lo : ℕ → ℕ
from_lo x = bit_and x 0xf

-- `combine_pair`: in eight bits.
unfoldable pub combine_pair : ℕ → ℕ → ℕ
combine_pair hi lo = bit_or (shl hi 4 % 256) lo

unfoldable pub bytes_to_nibble_list : Bytes → Nibbles
unfolding from_hi from_lo
bytes_to_nibble_list [] = []
bytes_to_nibble_list (x ∷ bytes) = from_hi x ∷ from_lo x ∷ bytes_to_nibble_list bytes

-- `from_mpt_key`: the nibbles and whether the node is a leaf; `none` is the panic of `unwrap`.
unfoldable pub from_nibbles : Nibbles → Option (Nibbles × Bool)
from_nibbles [] = none
from_nibbles (ty ∷ rest) =
    let leaf = not (bit_and ty 0x2 == 0) in
    if bit_and ty 0x1 == 0
    then elim rest [ [] ↦ none | pad ∷ key ↦ some (key, leaf) ]
    else some (rest, leaf)

unfoldable pub from_mpt_key : Bytes → Option (Nibbles × Bool)
unfolding bytes_to_nibble_list from_nibbles
from_mpt_key key = from_nibbles (bytes_to_nibble_list key)

unfoldable pub mpt_prefix : Bool → Bool → Nibbles
mpt_prefix false false = 0 ∷ 0 ∷ []
mpt_prefix true false = 1 ∷ []
mpt_prefix false true = 2 ∷ 0 ∷ []
mpt_prefix true true = 3 ∷ []

-- The `while` loop; an odd number of nibbles panics.
unfoldable pub combine_all : Nibbles → Option Bytes
combine_all [] = some []
combine_all (hi ∷ []) = none
combine_all (hi ∷ lo ∷ rest) = do bytes ← combine_all rest; some (combine_pair hi lo ∷ bytes)

unfoldable pub to_mpt_key : Nibbles → Bool → Option Bytes
unfolding mpt_prefix combine_all
to_mpt_key key leaf = combine_all (mpt_prefix (length key % 2 == 1) leaf ++ key)

-- `common_prefix_iter`, collected.
unfoldable pub common_prefix : Nibbles → Nibbles → Nibbles
common_prefix (x ∷ a) (y ∷ b) = if x == y then x ∷ common_prefix a b else []
common_prefix _ _ = []

-- `add_prefix`
unfoldable pub add_prefix : Nibbles → Nibbles → Nibbles
add_prefix base prefix = prefix ++ base

-- `starts_with`, with what follows the prefix.
unfoldable pub strip_prefix : Nibbles → Nibbles → Option Nibbles
strip_prefix [] nibbles = some nibbles
strip_prefix (x ∷ key) [] = none
strip_prefix (x ∷ key) (y ∷ nibbles) = if x == y then strip_prefix key nibbles else none
