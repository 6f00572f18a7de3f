-- ===== src/Merkle/Dump.antt =====
-- The loop of `StaticMerkleTree::dump` as plain recursions: the root, and the access it leaves.
pub mod Stored
pub mod Database
use extended_hypertrie_authe.Prelude.{
  ℕ, zero, suc, ◌+◌, ◌-◌, ◌*◌, ◌/◌, ◌%◌, ◌^◌, ◌≤◌, ◌<◌, List, [], ◌∷◌, ◌++◌, Option, none, some,
  Bool, true, false, ◌≡◌, refl, ap, arith, length, get_or, get_elem?, leb, leb→le, ltb, ◌==◌, shl,
  shr, if◌then◌else◌, Bool-cases, pow-suc_two, pow_pos, ◌⊎◌, inl, inr, nat_eq, pow_mono,
}
use extended_hypertrie_authe.Prelude.Options.{◌>>=◌}
use extended_hypertrie_authe.Storage.Backend.{KeyValueDb}
use extended_hypertrie_authe.Storage.Layout.{flatten_array}
use extended_hypertrie_authe.Storage.Access.{World, set_entry}
use extended_hypertrie_authe.Merkle.{
  find_depth, depth_of, pad, combine_chunks, root_of_level, store_level, dump_levels, Access,
}
use extended_hypertrie_authe.Merkle.Hashing.{HashLib, h256_serde}
use extended_hypertrie_authe.Merkle.Levels.{
  next_level, level_from, combine_chunks-pad, length-next_level, length-next_level-le,
}

suc-ne-zero : (n : ℕ) → (suc n == 0) ≡ false
suc-ne-zero n = ground arith

find_depth_lem :
    (rounds d n : ℕ)
    → n ≤ 2 ^ (d + rounds)
    → (n ≤ 2 ^ find_depth rounds d n) × ((e : ℕ) → d ≤ e → e < find_depth rounds d n → 2 ^ e < n)
unfolding find_depth
find_depth_lem zero d n h =
    (let e : d + 0 ≡ d = omega arith in rw e at h, λ e p q. absurd (omega arith))
find_depth_lem (suc rounds) d n h = elim (Bool-cases (leb n (2 ^ d))) [
  | inl fits ↦ rw fits (leb→le n (2 ^ d) fits, λ e p q. absurd (omega arith))
  | inr over ↦
      let shift : d + suc rounds ≡ suc d + rounds = omega arith in
      let (fits, least) = find_depth_lem rounds (suc d) n (rw shift at h) in
      rw over (fits, λ e p q. ground (arith, least e))
]

le-pow : (n : ℕ) → n ≤ 2 ^ n
le-pow zero = omega arith
le-pow (suc n) = omega (arith, le-pow n, pow-suc_two n, pow_pos n)

-- The depth is the least one at which the leaves fit.
pub depth_of_lem : (n : ℕ) → (n ≤ 2 ^ depth_of n) × ((d : ℕ) → d < depth_of n → 2 ^ d < n)
unfolding depth_of
depth_of_lem n =
    let start : 0 + n ≡ n = omega arith in
    let (fits, least) = find_depth_lem n 0 n (rw start (le-pow n)) in
    (fits, λ d q. least d (omega arith) q)

module _ (db : KeyValueDb) (lib : HashLib) where
  open lib use {H256}

  pub root_after : ℕ → List H256 → H256 → H256
  root_after zero level root = root
  root_after (suc n) level root =
      root_after n (next_level lib level) (root_of_level lib n level root)

  unfoldable pub access_after : Bool → ℕ → List H256 → Access db lib → Access db lib
  access_after only_root zero level a = a
  access_after only_root (suc n) level a =
      access_after only_root n (next_level lib level) (store_level db lib only_root n 0 level a)

  pub dump_levels-eq :
      (only_root : Bool) (n : ℕ) (level : List H256) (root : H256) (a : Access db lib)
      → dump_levels db lib only_root n level root a
        ≡ some (root_after n level root, access_after only_root n level a)
  unfolding dump_levels root_after access_after
  dump_levels-eq only_root zero level root a = refl
  dump_levels-eq only_root (suc n) level root a =
      rw (combine_chunks-pad lib level) (dump_levels-eq only_root n (next_level lib level) _ _)

  root_of_level_inner :
      (n : ℕ) (level : List H256) (root : H256) → root_of_level lib (suc n) level root ≡ root
  unfolding root_of_level
  root_of_level_inner n [] root = refl
  root_of_level_inner n (x ∷ level) root = rw (suc-ne-zero n) (root_of_level_inner n level root)

  pub root_after_lem :
      (n : ℕ) (level : List H256) (root z : H256)
      → 0 < length level
      → length level ≤ 2 ^ n
      → root_after (suc n) level root ≡ get_or (level_from lib n level) 0 z
  unfolding root_after level_from root_of_level
  root_after_lem zero [] root z p h = absurd (omega arith)
  root_after_lem zero (x ∷ []) root z p h = refl
  root_after_lem zero (x ∷ y ∷ level) root z p h = absurd (omega arith)
  root_after_lem (suc n) level root z p h = rw (root_of_level_inner n level root) (
      root_after_lem n (next_level lib level) root z (omega (arith, length-next_level lib level))
        (length-next_level-le lib n level h))
