-- ===== src/Serde/Vectors.antt =====
-- `Vec<u8>` (serde/basic.rs), and `read_vec` and `write_vec` of the two traits (serde/mod.rs).
use extended_hypertrie_authe.Prelude.{
  ℕ, zero, suc, ◌^◌, ◌<◌, List, [], ◌∷◌, ◌++◌, Option, some, ◌≡◌, refl, length, All,
}
use extended_hypertrie_authe.Prelude.Options.{◌>>=◌}
use extended_hypertrie_authe.Serde.{Bytes, SerdeType, read_exact, Serde}
use extended_hypertrie_authe.Serde.Uint.{
  read_uint, write_uint, read_uint-write_uint, read_exact-append,
}
use mathlib.Core.List.{append_assoc}

-- The length as a `usize`, then the bytes.
unfoldable pub write_bytes : Bytes → SerdeType → Bytes
write_bytes v ty = write_uint 8 (length v) ty ++ v

unfoldable pub read_bytes : Bytes → SerdeType → Option (Bytes × Bytes)
read_bytes reader ty = do (length, r) ← read_uint 8 reader ty; read_exact length r

-- A byte string whose length is a `usize` is read back, in front of anything.
pub read_bytes-write_bytes :
    (v : Bytes) (ty : SerdeType) (rest : Bytes)
    → length v < 256 ^ 8
    → read_bytes (write_bytes v ty ++ rest) ty ≡ some (v, rest)
unfolding read_bytes write_bytes
read_bytes-write_bytes v ty rest h =
    rw (append_assoc (write_uint 8 (length v) ty) v rest)
      (rw (read_uint-write_uint 8 (length v) ty (v ++ rest) h) (read_exact-append v rest))

abbrev pub bytes_serde : Serde Bytes
bytes_serde = record {
  write = write_bytes;
  read = read_bytes;
  Fits = λ v. length v < 256 ^ 8;
  read-write = read_bytes-write_bytes;
}

module _ {V : Type 0} (s : Serde V) where
  -- `for item in vec_self.iter()`
  unfoldable pub write_items : List V → SerdeType → Bytes
  write_items [] ty = []
  write_items (v ∷ vs) ty = s.write v ty ++ write_items vs ty

  unfoldable pub write_vec : List V → SerdeType → Bytes
  write_vec vs ty = write_uint 8 (length vs) ty ++ write_items vs ty

  -- `for _ in 0..length`
  unfoldable pub read_items : ℕ → Bytes → SerdeType → Option (List V × Bytes)
  read_items zero reader ty = some ([], reader)
  read_items (suc n) reader ty = do
    (v, r) ← s.read reader ty
    (vs, rest) ← read_items n r ty
    some (v ∷ vs, rest)

  unfoldable pub read_vec : Bytes → SerdeType → Option (List V × Bytes)
  read_vec reader ty = do (length, r) ← read_uint 8 reader ty; read_items length r ty

  pub read_items-write_items :
      (vs : List V) (ty : SerdeType) (rest : Bytes)
      → All s.Fits vs
      → read_items (length vs) (write_items vs ty ++ rest) ty ≡ some (vs, rest)
  unfolding read_items write_items
  read_items-write_items [] ty rest h = refl
  read_items-write_items (v ∷ vs) ty rest h =
      rw (append_assoc (s.write v ty) (write_items vs ty) rest) (
        rw (s.read-write v ty (write_items vs ty ++ rest) h.0)
          (rw (read_items-write_items vs ty rest h.1)))

  -- A vector whose length is a `usize` is read back, in front of anything, when its items fit
  -- their type.
  pub read_vec-write_vec :
      (vs : List V) (ty : SerdeType) (rest : Bytes)
      → length vs < 256 ^ 8
      → All s.Fits vs
      → read_vec (write_vec vs ty ++ rest) ty ≡ some (vs, rest)
  unfolding read_vec write_vec
  read_vec-write_vec vs ty rest h fits =
      rw (append_assoc (write_uint 8 (length vs) ty) (write_items vs ty) rest) (
        rw (read_uint-write_uint 8 (length vs) ty (write_items vs ty ++ rest) h)
          (read_items-write_items vs ty rest fits))
