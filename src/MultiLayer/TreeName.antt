-- ===== src/MultiLayer/TreeName.antt =====
-- multi_layer_amt/name.rs: the names of the trees, the path of node indices from the root tree.
use extended_hypertrie_authe.Prelude.{
  ℕ, ◌%◌, ◌^◌, ◌<◌, List, [], ◌∷◌, ◌++◌, Option, none, some, ◌≡◌, refl, ap, arith, length, All,
}
use extended_hypertrie_authe.Prelude.Options.{◌>>=◌}
use extended_hypertrie_authe.Serde.{Bytes, SerdeType}
use extended_hypertrie_authe.Serde.Uint.{read_uint, write_uint, read_uint-write_uint, u32_serde}
use extended_hypertrie_authe.Serde.Vectors.{read_items, write_items, read_items-write_items}
use mathlib.Core.List.{append_assoc}
use native.Mathlib.Nat.{mod-eq_of_lt}

-- `struct TreeName(Vec<u32>)`
pub record TreeName : Type 0 where
  pub path : List ℕ

-- The length is cut to a `u8`.
unfoldable pub write_name : TreeName → SerdeType → Bytes
write_name name ty = write_uint 1 (length name.path % 256) ty ++ write_items u32_serde name.path ty

unfoldable pub read_name : Bytes → SerdeType → Option (TreeName × Bytes)
read_name reader ty = do
  (length, r) ← read_uint 1 reader ty
  (answer, rest) ← read_items u32_serde length r ty
  some (record { path = answer }, rest)

unfoldable pub root : TreeName
root = record { path = [] }

-- `Vec::last`, and `Vec::pop` with the vector that is left.
unfoldable last : List ℕ → Option ℕ
last [] = none
last (x ∷ []) = some x
last (x ∷ y ∷ ys) = last (y ∷ ys)

unfoldable pop : List ℕ → Option ℕ × List ℕ
pop [] = (none, [])
pop (x ∷ []) = (some x, [])
pop (x ∷ y ∷ ys) = let (top, rest) = pop (y ∷ ys) in (top, x ∷ rest)

unfoldable pub level_index : TreeName → Option ℕ
unfolding last
level_index name = last name.path

unfoldable pub child : TreeName → ℕ → TreeName
child name index = record { path = name.path ++ index ∷ [] }

-- `parent` after its `pop`.
unfoldable popped : Option ℕ × List ℕ → Option TreeName
popped (none, answer) = none
popped (some top, answer) = some (record { path = answer })

unfoldable pub parent : TreeName → Option TreeName
unfolding pop popped
parent name = popped (pop name.path)

last-append : (xs : List ℕ) (x : ℕ) → last (xs ++ x ∷ []) ≡ some x
unfolding last
last-append [] x = refl
last-append (y ∷ []) x = refl
last-append (y ∷ z ∷ zs) x = last-append (z ∷ zs) x

pop-append : (xs : List ℕ) (x : ℕ) → pop (xs ++ x ∷ []) ≡ (some x, xs)
unfolding pop
pop-append [] x = refl
pop-append (y ∷ []) x = refl
pop-append (y ∷ z ∷ zs) x = ap (λ r. (r.0, y ∷ r.1)) (pop-append (z ∷ zs) x)

-- The parent of a child is the tree, and the child's level index is the index it was made with.
pub parent-child :
    (name : TreeName) (index : ℕ)
    → (parent (child name index) ≡ some name) × (level_index (child name index) ≡ some index)
unfolding parent child level_index popped
parent-child name index = (ap popped (pop-append name.path index), last-append name.path index)

-- A name is read back, in front of anything, when it has fewer than 256 levels and its indices
-- are machine words.
pub read_name-write_name :
    (name : TreeName) (ty : SerdeType) (rest : Bytes)
    → length name.path < 256
    → All (λ index. index < 2 ^ 32) name.path
    → read_name (write_name name ty ++ rest) ty ≡ some (name, rest)
unfolding read_name write_name
read_name-write_name name ty rest short fits =
    let items = write_items u32_serde name.path ty in
    let count : length name.path % 256 ≡ length name.path = mod-eq_of_lt short in
    rw count (
      rw (append_assoc (write_uint 1 (length name.path) ty) items rest) (
        rw (read_uint-write_uint 1 (length name.path) ty (items ++ rest) (omega (arith, short)))
          (rw (read_items-write_items u32_serde name.path ty rest fits))))
