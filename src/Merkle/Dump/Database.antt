-- ===== src/Merkle/Dump/Database.antt =====
-- The database after the dump of an epoch, and what a new access to the epoch shows of it.
use extended_hypertrie_authe.Prelude.{
  ℕ, zero, suc, ◌+◌, ◌-◌, ◌^◌, ◌≤◌, ◌<◌, List, [], ◌∷◌, Option, none, some, Bool, true, false, ◌≡◌,
  refl, ap, ap₂, sym, arith, length, get_or, get_elem?, ltb, ltb→lt, ◌==◌, shl, Bool-cases,
  pow-suc_two, pow_pos, inl, inr, nat_eq, pow_mono, ◌∙◌,
}
use extended_hypertrie_authe.Prelude.Maps.{lookup}
use extended_hypertrie_authe.Prelude.Options.{◌>>=◌}
use extended_hypertrie_authe.Storage.Backend.{KeyValueDb, DbColumn, column_get}
use extended_hypertrie_authe.Storage.Layout.{flatten_array}
use extended_hypertrie_authe.Storage.Access.{
  World, set_entry, to_be_bytes, compute_key, load, decode, flush_cache, get, new as new_access,
}
use extended_hypertrie_authe.Storage.Access.View.{
  view, view-set_entry, IsCoherent, set_entry-IsCoherent, get-eq-view,
}
use extended_hypertrie_authe.Storage.Access.Flush.{view-new-flush_cache}
use extended_hypertrie_authe.Merkle.{store_level, dump, depth_of, Access}
use extended_hypertrie_authe.Merkle.Hashing.{HashLib, h256_serde}
use extended_hypertrie_authe.Merkle.Levels.{next_level, level_from}
use extended_hypertrie_authe.Merkle.Dump.{depth_of_lem, root_after, access_after, dump_levels-eq}
use extended_hypertrie_authe.Merkle.Dump.Stored.{
  or_else, view-access_after, access_after-IsCoherent,
}

pub depth-le : (n : ℕ) → n ≤ 2 ^ 31 → depth_of n ≤ 31
depth-le n h = elim (Bool-cases (ltb 31 (depth_of n))) [
  | inl over ↦ absurd (omega (arith, (depth_of_lem n).1 31 (ltb→lt 31 (depth_of n) over)))
  | inr fits ↦ ground arith
]

module _ (db : KeyValueDb) (lib : HashLib) where
  open lib use {H256}

  -- The access of an epoch, as `dump` and `new` make it.
  abbrev pub epoch_access : DbColumn → ℕ → Access db lib
  epoch_access column epoch = new_access (to_be_bytes 8 epoch) column

  -- No entry of the epoch is in the database yet.
  abbrev pub IsFresh : DbColumn → World db.State → ℕ → Type 0
  IsFresh column w epoch =
      (k : ℕ)
      → column_get db column w.store (compute_key flatten_array (to_be_bytes 8 epoch) k) ≡ none

  store_level-keeps :
      (only_root : Bool) (level i : ℕ) (hashes : List H256) (a : Access db lib)
      → ((store_level db lib only_root level i hashes a).prefix ≡ a.prefix)
        × ((store_level db lib only_root level i hashes a).column ≡ a.column)
  unfolding store_level set_entry
  store_level-keeps only_root level i [] a = (refl, refl)
  store_level-keeps true level i (x ∷ hashes) a = store_level-keeps true level (suc i) hashes a
  store_level-keeps false level i (x ∷ hashes) a =
      store_level-keeps false level (suc i) hashes (set_entry a (shl 1 level + i) x)

  access_after-keeps :
      (only_root : Bool) (n : ℕ) (level : List H256) (a : Access db lib)
      → ((access_after db lib only_root n level a).prefix ≡ a.prefix)
        × ((access_after db lib only_root n level a).column ≡ a.column)
  unfolding access_after
  access_after-keeps only_root zero level a = (refl, refl)
  access_after-keeps only_root (suc n) level a =
      let (p, c) = store_level-keeps only_root n 0 level a in
      let (p', c') =
        access_after-keeps only_root n (next_level lib level)
          (store_level db lib only_root n 0 level a) in
      (p' ∙ p, c' ∙ c)

  or_else-get_elem? :
      (xs : List H256) (j : ℕ) (d : H256) → or_else (get_elem? xs j) (some d) ≡ some (get_or xs j d)
  or_else-get_elem? [] j d = refl
  or_else-get_elem? (x ∷ xs) zero d = refl
  or_else-get_elem? (x ∷ xs) (suc j) d = or_else-get_elem? xs j d

  -- The access at the end of `dump`, and the database after its flush.
  abbrev dumped_access : DbColumn → ℕ → List H256 → Bool → Access db lib
  dumped_access column epoch hashes only_root =
      let depth = depth_of (length hashes) in
      set_entry (access_after db lib only_root (suc depth) hashes (epoch_access column epoch)) 0
        (lib.from_low_u64_be depth)

  unfoldable pub dumped : DbColumn → World db.State → ℕ → List H256 → Bool → World db.State
  dumped column w epoch hashes only_root =
      (flush_cache db (h256_serde lib) flatten_array lib.default
        (dumped_access column epoch hashes only_root) (record w { put_mode = 3 })).1

  pub dump-eq :
      (column : DbColumn) (w : World db.State) (epoch : ℕ) (hashes : List H256) (only_root : Bool)
      → dump db lib column w epoch hashes only_root
        ≡ some (
          root_after db lib (suc (depth_of (length hashes))) hashes lib.default,
          dumped column w epoch hashes only_root,
        )
  unfolding dump dumped
  dump-eq column w epoch hashes only_root = rw (
      dump_levels-eq db lib only_root (suc (depth_of (length hashes))) hashes lib.default
        (epoch_access column epoch))

  module _ (column : DbColumn) (w : World db.State) (epoch : ℕ) (hashes : List H256) where
    -- What a new access to the epoch shows of the database after the dump.
    abbrev pub shown_after : Bool → ℕ → Option H256
    shown_after only_root k =
        view db (h256_serde lib) flatten_array lib.default (epoch_access column epoch)
          (dumped column w epoch hashes only_root) k

    shown_before : ℕ → Option H256
    shown_before k =
        view db (h256_serde lib) flatten_array lib.default (epoch_access column epoch)
          (record w { put_mode = 3 }) k

    shown_before-IsFresh : IsFresh column w epoch → (k : ℕ) → shown_before k ≡ some lib.default
    unfolding shown_before view load lookup decode new_access
    shown_before-IsFresh fresh k = rw (fresh k)

    dumped_access-IsCoherent :
        (only_root : Bool)
        → length hashes ≤ 2 ^ 31
        → IsCoherent db
            (h256_serde lib)
            flatten_array
            lib.default
            (dumped_access column epoch hashes only_root)
            (record w { put_mode = 3 })
    unfolding lookup new_access
    dumped_access-IsCoherent only_root small =
        let depth = depth_of (length hashes) in
        let e : suc depth - 1 ≡ depth = omega arith in
        set_entry-IsCoherent db (h256_serde lib) flatten_array lib.default
          (access_after db lib only_root (suc depth) hashes (epoch_access column epoch))
          (record w { put_mode = 3 }) 0 (lib.from_low_u64_be depth) (omega arith) tt
          (access_after-IsCoherent db lib (record w { put_mode = 3 }) only_root (suc depth) hashes
            (epoch_access column epoch) (omega (arith, depth-le (length hashes) small))
            (rw e (depth_of_lem (length hashes)).0)
            (record { is_map = tt; fits = tt; clean = λ k v h. cc }))

    shown_after-eq :
        (only_root : Bool) (k : ℕ)
        → length hashes ≤ 2 ^ 31
        → k < 2 ^ 32
        → shown_after only_root k
          ≡ view db
              (h256_serde lib)
              flatten_array
              lib.default
              (dumped_access column epoch hashes only_root)
              (record w { put_mode = 3 })
              k
    unfolding dumped set_entry new_access
    shown_after-eq only_root k small fits =
        let a = dumped_access column epoch hashes only_root in
        let (prefix, same) =
          access_after-keeps only_root (suc (depth_of (length hashes))) hashes
            (epoch_access column epoch) in
        let shown_by = λ (start : Access db lib).
          view db (h256_serde lib) flatten_array lib.default start
            (dumped column w epoch hashes only_root) k in
        ap shown_by (sym (ap₂ new_access prefix same))
        ∙ view-new-flush_cache db (h256_serde lib) flatten_array lib.default a
            (record w { put_mode = 3 }) k fits (dumped_access-IsCoherent only_root small)

    -- Depth `m`, position `j` shows the hash `j` of the level with that depth, and
    -- `H256::default()` beyond the end of the level.
    pub shown_after-level :
        (m j : ℕ)
        → length hashes ≤ 2 ^ 31
        → IsFresh column w epoch
        → m ≤ depth_of (length hashes)
        → j < 2 ^ m
        → shown_after false (2 ^ m + j)
          ≡ some (get_or (level_from lib (depth_of (length hashes) - m) hashes) j lib.default)
    unfolding shown_before
    shown_after-level m j small fresh le lt =
        let depth = depth_of (length hashes) in
        let start = epoch_access column epoch in
        let key = 2 ^ m + j in
        let fits : key < 2 ^ 32 = omega (
          arith,
          pow-suc_two m,
          pow_mono (suc m) 32 (omega (arith, depth-le (length hashes) small)),
        ) in
        let apart : (0 == key) ≡ false = ground (arith, pow_pos m) in
        shown_after-eq false key small fits
        ∙ view-set_entry db (h256_serde lib) flatten_array lib.default
            (access_after db lib false (suc depth) hashes start) (record w { put_mode = 3 }) 0
            (lib.from_low_u64_be depth) key
        ∙ rw apart (
            view-access_after db lib (record w { put_mode = 3 }) depth m j hashes start le lt
              (depth_of_lem (length hashes)).0
            ∙ ap (or_else (get_elem? (level_from lib (depth - m) hashes) j))
                (shown_before-IsFresh fresh key)
            ∙ or_else-get_elem? (level_from lib (depth - m) hashes) j lib.default)

    pub shown_after-depth :
        (only_root : Bool)
        → length hashes ≤ 2 ^ 31
        → shown_after only_root 0 ≡ some (lib.from_low_u64_be (depth_of (length hashes)))
    shown_after-depth only_root small =
        let depth = depth_of (length hashes) in
        shown_after-eq only_root 0 small (omega arith)
        ∙ view-set_entry db (h256_serde lib) flatten_array lib.default
            (access_after db lib only_root (suc depth) hashes (epoch_access column epoch))
            (record w { put_mode = 3 }) 0 (lib.from_low_u64_be depth) 0

    -- `dump` of at most `2 ^ 31` leaves into a column with no entry of the epoch returns, and from
    -- the database that it leaves a new access to the epoch reads, at depth `m` and position `j` of
    -- the tree, the hash `j` of the level at that depth, which is `m` levels below the root, and
    -- `H256::default()` beyond the end of the level.
    pub get-dump :
        (m j : ℕ)
        → length hashes ≤ 2 ^ 31
        → IsFresh column w epoch
        → m ≤ depth_of (length hashes)
        → j < 2 ^ m
        → (do
          (root, after) ← dump db lib column w epoch hashes false
          (hash, a) ←
              get db
                (h256_serde lib)
                flatten_array
                lib.default
                (epoch_access column epoch)
                after
                (2 ^ m + j)
          some hash)
          ≡ some (get_or (level_from lib (depth_of (length hashes) - m) hashes) j lib.default)
    get-dump m j small fresh le lt = rw (dump-eq column w epoch hashes false) (
        rw
          (
            get-eq-view db (h256_serde lib) flatten_array lib.default (epoch_access column epoch)
                (dumped column w epoch hashes false) (2 ^ m + j),
            shown_after-level m j small fresh le lt,
          )
          refl)
