-- ===== src/Checks/CommitRuns.antt =====
-- Commits of the trie of asb-authdb/rainblock-trie with a list of operations for the database.
use extended_hypertrie_authe.Prelude.{
  ℕ, ◌<◌, All, true, false, arith, List, [], ◌∷◌, Option, none, some, ◌≡◌, refl, replicate,
  list_beq,
}
use extended_hypertrie_authe.Prelude.Options.{◌>>=◌}
use extended_hypertrie_authe.Serde.{Bytes}
use extended_hypertrie_authe.Storage.Backend.{DbOp, after_ops}
use extended_hypertrie_authe.Rainblock.Nibble.{to_mpt_key, combine_pair, from_mpt_key}
use extended_hypertrie_authe.Rainblock.Load.{bytes_at}
use extended_hypertrie_authe.Rainblock.Node.{
  TrieNode, leaf, branch, owned, ext, NodeCache, committed, set_child_of, set_child, empty_group,
  seal, fresh,
}
use extended_hypertrie_authe.Rainblock.Rlp.{hash}
use extended_hypertrie_authe.Rainblock.Codec.{encode, Fits, IsCoherent, IsCoherentRoot}
use extended_hypertrie_authe.Rainblock.Codec.Bare.{bare}
use extended_hypertrie_authe.Rainblock.Codec.Keys.{from_mpt_key-to_mpt_key}
use extended_hypertrie_authe.Rainblock.Codec.Cached.{hash-encode}
use extended_hypertrie_authe.Rainblock.Codec.Committed.{AreHashed}
use extended_hypertrie_authe.Rainblock.Codec.Shown.{IsShaped, shown}
use extended_hypertrie_authe.Rainblock.Codec.Decoded.{from_loaded-encode}
use extended_hypertrie_authe.Rainblock.Codec.Saved.{saved, commit-encode}
use extended_hypertrie_authe.Rainblock.Ops.{MerklePatriciaTree, get, put}
use extended_hypertrie_authe.Rainblock.Commits.{from_loaded, load_from, commit_self, truncate_at}
use extended_hypertrie_authe.Rainblock.Database.{new, commit, flush_all, put_times}
use extended_hypertrie_authe.Checks.Toy.{log_db, toy_lib, mix}
use extended_hypertrie_authe.Checks.ToyRlp.{toy_rlp}

abbrev Run : Type 0
Run = MerklePatriciaTree ℕ × List DbOp

abbrev start : Run
start = (record { root = none; del_ops = [] }, [])

abbrev put_run : Bytes → Bytes → Run → Option Run
put_run key val (t, s) = do t' ← put (load_from toy_lib toy_rlp log_db s) 1 t key val; some (t', s)

abbrev commit_run : Run → Option Run
commit_run (t, s) = do (digest, (t', s')) ← commit toy_lib toy_rlp log_db 1 t s; some (t', s')

abbrev get_run : Bytes → Run → Option (Option Bytes)
get_run key (t, s) = do (value, t') ← get (load_from toy_lib toy_rlp log_db s) 1 t key; some value

-- After a flush of the top layers and a fresh start.
abbrev reopen : Run → Option Run
reopen (t, s) = do
  (t', s') ← flush_all toy_lib toy_rlp log_db 1 t s
  new' ← new toy_lib toy_rlp log_db 1 s'
  some (new', s')

abbrev long : ℕ → Bytes
long b = replicate 40 b

abbrev two_saved : Option Run
two_saved = do
  a ← put_run (0x1a ∷ []) (long 7) start
  b ← put_run (0x2a ∷ []) (long 8) a
  commit_run b

two_saved_get : (two_saved >>= get_run (0x2a ∷ [])) ≡ some (some (long 8))
unfolding put get commit flush_all new load_from mix list_beq put_times commit_self to_mpt_key
    truncate_at combine_pair bytes_at from_mpt_key
two_saved_get = refl

two_reopened_get : ((two_saved >>= reopen) >>= get_run (0x2a ∷ [])) ≡ some (some (long 8))
unfolding put get commit flush_all new load_from mix list_beq put_times commit_self to_mpt_key
    truncate_at combine_pair bytes_at from_mpt_key
two_reopened_get = refl

abbrev twins_saved : Option Run
twins_saved = do
  a ← put_run (0x1a ∷ []) (long 7) start
  b ← put_run (0x2a ∷ []) (long 7) a
  c ← put_run (0x3a ∷ []) (long 8) b
  commit_run c

abbrev twin_deleted : Option Run
twin_deleted = do a ← twins_saved; b ← put_run (0x1a ∷ []) [] a; commit_run b

twins_saved_get : (twins_saved >>= get_run (0x2a ∷ [])) ≡ some (some (long 7))
unfolding put get commit flush_all new load_from mix list_beq put_times commit_self to_mpt_key
    truncate_at combine_pair bytes_at from_mpt_key
twins_saved_get = refl

-- The two leaves of one digest are one entry of the database, which the first deletion takes away.
twin_deleted_get : (twin_deleted >>= get_run (0x2a ∷ [])) ≡ none
unfolding put get commit flush_all new load_from mix list_beq put_times commit_self to_mpt_key
    truncate_at combine_pair bytes_at from_mpt_key set_child_of
twin_deleted_get = refl

-- The key of the third leaf is still there.
third_kept_get : (twin_deleted >>= get_run (0x3a ∷ [])) ≡ some (some (long 8))
unfolding put get commit flush_all new load_from mix list_beq put_times commit_self to_mpt_key
    truncate_at combine_pair bytes_at from_mpt_key set_child_of
third_kept_get = refl

abbrev short_leaf : TrieNode ℕ
short_leaf = leaf (10 ∷ []) (7 ∷ [])

abbrev long_leaf : TrieNode ℕ
long_leaf = leaf (10 ∷ []) (long 8)

abbrev some_root : TrieNode ℕ
some_root =
    branch
      (set_child (set_child empty_group 1 (owned (seal short_leaf))) 2 (owned (seal long_leaf))) []

some_root-IsCoherent : IsCoherentRoot toy_lib toy_rlp (seal some_root)
some_root-IsCoherent = (
  (
    tt,
    (
      (tt, (refl, refl)),
      (
        (tt, (refl, refl)),
        (tt, (tt, (tt, (tt, (tt, (tt, (tt, (tt, (tt, (tt, (tt, (tt, (tt, tt))))))))))))),
      ),
    ),
  ),
  (refl, refl),
)

hash-encode_example :
    (new : TrieNode ℕ) × (cache' : NodeCache ℕ) × (hash toy_lib toy_rlp (seal some_root)
      ≡ some (mix (encode toy_lib toy_rlp some_root), ext new cache'))
    × (bare new ≡ bare some_root)
    × IsCoherent toy_lib toy_rlp new
    × Fits toy_lib toy_rlp true cache'.rlp_encode cache' (encode toy_lib toy_rlp new)
hash-encode_example =
    hash-encode toy_lib toy_rlp true some_root fresh some_root-IsCoherent.0 some_root-IsCoherent.1

commit-encode_example :
    (new : TrieNode ℕ) × (cache' : NodeCache ℕ) × (ops : List (ℕ × Bytes)) × (s' : List DbOp)
    × (commit toy_lib toy_rlp log_db 1
          (record { root = some (seal some_root); del_ops = 5 ∷ [] })
          []
        ≡ some (
          mix (encode toy_lib toy_rlp some_root),
          (record { root = some (ext new cache'); del_ops = [] }, s'),
        ))
    × (encode toy_lib toy_rlp new ≡ encode toy_lib toy_rlp some_root)
    × IsCoherentRoot toy_lib toy_rlp (ext new cache')
    × AreHashed toy_lib toy_rlp ops
    × ((col : ℕ) (k : Bytes)
        → log_db.get s' col k
          ≡ after_ops
              (saved toy_lib toy_rlp log_db 1 (5 ∷ []) ops (mix (encode toy_lib toy_rlp some_root)))
              col
              k
              (log_db.get [] col k))
commit-encode_example =
    commit-encode toy_lib toy_rlp log_db 1 some_root fresh (5 ∷ []) [] some_root-IsCoherent

from_mpt_key-to_mpt_key_example :
    (bytes : Bytes) × (to_mpt_key (1 ∷ 10 ∷ 3 ∷ []) true ≡ some bytes)
    × (All (λ (i : ℕ). i < 16) (1 ∷ 10 ∷ 3 ∷ [])
        → from_mpt_key bytes ≡ some (1 ∷ 10 ∷ 3 ∷ [], true))
from_mpt_key-to_mpt_key_example = from_mpt_key-to_mpt_key (1 ∷ 10 ∷ 3 ∷ []) true

some_root-IsShaped : IsShaped toy_lib toy_rlp some_root
some_root-IsShaped = (
  refl,
  (
    tt,
    (
      (omega (arith), tt),
      (
        (omega (arith), tt),
        (tt, (tt, (tt, (tt, (tt, (tt, (tt, (tt, (tt, (tt, (tt, (tt, (tt, tt))))))))))))),
      ),
    ),
  ),
)

from_loaded-encode_example :
    (from_loaded toy_lib toy_rlp 5 (encode toy_lib toy_rlp some_root)
      ≡ some (
          ext (shown toy_lib toy_rlp some_root) (record {
            hash = some 5;
            rlp_encode = some (encode toy_lib toy_rlp some_root);
            commited = committed;
            exiled = 0;
            loaded = false;
          })))
    × (encode toy_lib toy_rlp (shown toy_lib toy_rlp some_root) ≡ encode toy_lib toy_rlp some_root)
    × IsCoherent toy_lib toy_rlp (shown toy_lib toy_rlp some_root)
from_loaded-encode_example = from_loaded-encode toy_lib toy_rlp 5 some_root some_root-IsShaped
