-- ===== src/Merkle/Prove/Complete.antt =====
-- A proof of `prove` on the dumped tree of an epoch is accepted by `verify`.
use extended_hypertrie_authe.Prelude.{
  ℕ, suc, ◌+◌, ◌-◌, ◌%◌, ◌^◌, ◌≤◌, ◌<◌, List, Option, some, Bool, true, false, ◌≡◌, refl, arith,
  length, get_or, shr, nat_eq, ◌∙◌,
}
use extended_hypertrie_authe.Prelude.Options.{◌>>=◌}
use extended_hypertrie_authe.Storage.Backend.{KeyValueDb, DbColumn}
use extended_hypertrie_authe.Storage.Layout.{flatten_array}
use extended_hypertrie_authe.Storage.Access.{World}
use extended_hypertrie_authe.Storage.Access.View.{touch, get-eq-view, view-touch}
use extended_hypertrie_authe.Merkle.{dump, new, prove, verify, depth_of, Access, get_hash}
use extended_hypertrie_authe.Merkle.Hashing.{HashLib, h256_serde}
use extended_hypertrie_authe.Merkle.Levels.{level_from}
use extended_hypertrie_authe.Merkle.Sound.{sibling_path, verify-sibling_path}
use extended_hypertrie_authe.Merkle.Dump.{depth_of_lem, root_after, root_after_lem}
use extended_hypertrie_authe.Merkle.Dump.Database.{
  epoch_access, IsFresh, dumped, dump-eq, depth-le, shown_after, shown_after-level,
  shown_after-depth,
}
use extended_hypertrie_authe.Merkle.Prove.{shown, ShowsLevels, NoDefault, prove_levels-eq}

module _ (db : KeyValueDb) (lib : HashLib) where
  open lib use {H256}

  abbrev touched : Access db lib → ℕ → H256 → Access db lib
  touched = touch db (h256_serde lib) flatten_array lib.default

  -- The epoch is dumped, opened again, and a proof of the leaf at `pos` is checked: whether the
  -- root of the tree is the one that was returned, and whether the proof is accepted.
  unfoldable pub dump_prove_verify :
      DbColumn → World db.State → ℕ → List H256 → ℕ → Option (Bool × Bool)
  dump_prove_verify column w epoch hashes pos = do
    (root, w') ← dump db lib column w epoch hashes false
    tree ← new db lib column w' epoch
    (proof, tree') ← prove db lib tree w' pos
    some (lib.beq tree.root root, verify lib root (get_or hashes pos lib.default) proof)

  module _ (column : DbColumn) (w : World db.State) (epoch : ℕ) (hashes : List H256)
      (filled : 0 < length hashes) (small : length hashes ≤ 2 ^ 31)
      (fresh : IsFresh db lib column w epoch) where
    abbrev depth : ℕ
    depth = depth_of (length hashes)

    abbrev pub root : H256
    root = root_after db lib (suc depth) hashes lib.default

    abbrev after : World db.State
    after = dumped db lib column w epoch hashes false

    pub root-eq : root ≡ get_or (level_from lib depth hashes) 0 lib.default
    root-eq =
        root_after_lem db lib depth hashes lib.default lib.default filled
          (depth_of_lem (length hashes)).0

    -- The access of the tree that `new` makes: the depth and the root are in its cache.
    abbrev pub opened : Access db lib
    opened =
        touched (touched (epoch_access db lib column epoch) 0 (lib.from_low_u64_be depth)) 1 root

    root_shown : shown_after db lib column w epoch hashes false 1 ≡ some root
    root_shown =
        let e : depth - 0 ≡ depth = omega arith in
        rw (e, ← root-eq) at
          (shown_after-level db lib column w epoch hashes 0 0 small fresh (omega arith)
            (omega arith))

    depth_shown :
        shown_after db lib column w epoch hashes false 0 ≡ some (lib.from_low_u64_be depth)
    depth_shown = shown_after-depth db lib column w epoch hashes false small

    read :
        (a : Access db lib) (k : ℕ)
        → get_hash db lib a after k ≡ (do v ← shown db lib after a k; some (v, touched a k v))
    read a k = get-eq-view db (h256_serde lib) flatten_array lib.default a after k

    shown_touch :
        (a : Access db lib) (k : ℕ) (v : H256) (j : ℕ)
        → shown db lib after a k ≡ some v
        → shown db lib after (touched a k v) j ≡ shown db lib after a j
    shown_touch a k v j = view-touch db (h256_serde lib) flatten_array lib.default a after k v j

    pub new-eq :
        new db lib column after epoch
        ≡ some (record { access = opened; root = root; depth = depth })
    unfolding new
    new-eq =
        let low : lib.to_low_u64_be (lib.from_low_u64_be depth) % 2 ^ 32 ≡ depth = omega (
          arith,
          depth-le (length hashes) small,
          lib.to_low-from_low depth (omega (arith, depth-le (length hashes) small)),
        ) in
        rw (read (epoch_access db lib column epoch) 0, depth_shown)
          (rw
            (
              read (touched (epoch_access db lib column epoch) 0 (lib.from_low_u64_be depth)) 1,
              shown_touch (epoch_access db lib column epoch) 0 (lib.from_low_u64_be depth) 1
                  depth_shown,
              root_shown,
            )
            (rw low))

    pub opened-ShowsLevels : ShowsLevels db lib after depth hashes opened
    opened-ShowsLevels m j one le lt =
        let start = epoch_access db lib column epoch in
        let first = touched start 0 (lib.from_low_u64_be depth) in
        shown_touch first 1 root (2 ^ m + j)
          (shown_touch start 0 (lib.from_low_u64_be depth) 1 depth_shown ∙ root_shown)
        ∙ shown_touch start 0 (lib.from_low_u64_be depth) (2 ^ m + j) depth_shown
        ∙ shown_after-level db lib column w epoch hashes m j small fresh le lt

    -- A tree of at most `2 ^ 31` leaves, and at least one, is dumped into a column with no entry of
    -- its epoch, and neither a leaf nor a hash above the leaves is `H256::default()`: for each
    -- position of a leaf, `new` and `prove` return a proof which `verify` accepts for the leaf
    -- against the root that `dump` returned, and which is the root of the new tree.
    pub verify-prove-dump :
        (pos : ℕ)
        → pos < length hashes
        → NoDefault lib hashes
        → dump_prove_verify column w epoch hashes pos ≡ some (true, true)
    unfolding dump_prove_verify prove
    verify-prove-dump pos inside d =
        let none_left : depth - depth ≡ 0 = omega arith in
        let whole : shr pos (depth - depth) ≡ pos = rw none_left (omega arith) in
        let (least, _) = depth_of_lem (length hashes) in
        let accepted : verify lib root (get_or hashes pos lib.default)
              (sibling_path lib depth hashes pos, pos)
            ≡ true =
          rw root-eq (verify-sibling_path lib depth pos hashes lib.default inside least) in
        let (a', proved) =
          prove_levels-eq db lib after depth depth pos hashes opened (omega arith)
            (omega (arith, whole)) opened-ShowsLevels d in
        rw (dump-eq db lib column w epoch hashes false, new-eq)
          (rw (proved, prove) (rw (whole, (lib.beq_iff root root).1 refl, accepted)))
