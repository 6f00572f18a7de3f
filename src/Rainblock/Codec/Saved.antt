-- ===== src/Rainblock/Codec/Saved.antt =====
-- commit of asb-authdb/rainblock-trie/src/rain_mpt.rs, for a tree with the right caches.
use extended_hypertrie_authe.Prelude.{
  ℕ, List, [], ◌∷◌, ◌++◌, Option, some, true, false, ◌≡◌, refl, sym, ap, ◌∙◌, map, All-append,
}
use extended_hypertrie_authe.Serde.{Bytes}
use extended_hypertrie_authe.Storage.Backend.{KeyValueDb, DbOp, insert, after_op, after_ops}
use extended_hypertrie_authe.Merkle.Hashing.{HashLib}
use extended_hypertrie_authe.Rainblock.Node.{TrieNode, ext, NodeCache}
use extended_hypertrie_authe.Rainblock.Rlp.{Rlp}
use extended_hypertrie_authe.Rainblock.Commits.{root_key, PutOps}
use extended_hypertrie_authe.Rainblock.Database.{
  write_each, delete_op, insert_op, commit_root, commit,
}
use extended_hypertrie_authe.Rainblock.Codec.{encode, IsCoherentRoot}
use extended_hypertrie_authe.Rainblock.Codec.Bare.{encode-bare_eq}
use extended_hypertrie_authe.Rainblock.Codec.Cached.{hash-encode}
use extended_hypertrie_authe.Rainblock.Codec.Committed.{AreHashed, commit_node-CommitsExt}
use extended_hypertrie_authe.Rainblock.Codec.Drained.{
  drain_exiled-CommitsExt, drain_loaded-KeepsExt,
}

after_ops-append :
    (ops more : List DbOp) (col : ℕ) (key : Bytes) (old : Option Bytes)
    → after_ops (ops ++ more) col key old ≡ after_ops more col key (after_ops ops col key old)
after_ops-append [] more col key old = refl
after_ops-append (op ∷ ops) more col key old =
    after_ops-append ops more col key (after_op op col key old)

module _ (lib : HashLib) (rlp : Rlp) (db : KeyValueDb) (n : ℕ) where
  get-write_each :
      (ops : List DbOp) (s : db.State) (col : ℕ) (key : Bytes)
      → db.get (write_each lib rlp db n s ops) col key ≡ after_ops ops col key (db.get s col key)
  get-write_each [] s col key = refl
  get-write_each (op ∷ ops) s col key =
      get-write_each ops (db.write_buffered s (op ∷ [])) col key
      ∙ ap (after_ops ops col key) (db.get-write_buffered s (op ∷ []) col key)

  -- The operations of a commit: the deleted digests, the new nodes, and the root.
  abbrev pub saved : List lib.H256 → PutOps lib rlp → lib.H256 → List DbOp
  saved del_ops ops digest =
      map (delete_op lib rlp) del_ops
      ++ (map (insert_op lib rlp) ops ++ (insert 0 root_key (lib.as_bytes digest) ∷ []))

  saved_lem :
      (del_ops : List lib.H256) (ops : PutOps lib rlp) (digest : lib.H256) (col : ℕ) (key : Bytes)
      (old : Option Bytes)
      → after_ops (saved del_ops ops digest) col key old
        ≡ after_ops (insert 0 root_key (lib.as_bytes digest) ∷ []) col key (
            after_ops
              (map (insert_op lib rlp) ops)
              col
              key
              (after_ops (map (delete_op lib rlp) del_ops) col key old))
  saved_lem del_ops ops digest col key old =
      let rooted = insert 0 root_key (lib.as_bytes digest) ∷ [] in
      let puts = map (insert_op lib rlp) ops in
      let deletes = map (delete_op lib rlp) del_ops in
      after_ops-append deletes (puts ++ rooted) col key old
      ∙ after_ops-append puts rooted col key (after_ops deletes col key old)

  -- `commit` of a tree that is not empty and whose caches are right returns the hash of the tree's
  -- encoding. The tree it leaves has the same encoding, the right caches and no digests to delete;
  -- the database reads as before but for the deletions, then writes of bytes under their hash, and
  -- then the write of the root's digest under the root key.
  pub commit-encode :
      (root : TrieNode lib.H256) (cache : NodeCache lib.H256) (del_ops : List lib.H256)
      (s : db.State)
      → IsCoherentRoot lib rlp (ext root cache)
      → (new : TrieNode lib.H256) × (cache' : NodeCache lib.H256) × (ops : PutOps lib rlp)
        × (s' : db.State) × (commit lib rlp db n
              (record { root = some (ext root cache); del_ops = del_ops })
              s
            ≡ some (
              lib.keccak (encode lib rlp root),
              (record { root = some (ext new cache'); del_ops = [] }, s'),
            ))
        × (encode lib rlp new ≡ encode lib rlp root)
        × IsCoherentRoot lib rlp (ext new cache')
        × AreHashed lib rlp ops
        × ((col : ℕ) (key : Bytes)
            → db.get s' col key
              ≡ after_ops
                  (saved del_ops ops (lib.keccak (encode lib rlp root)))
                  col
                  key
                  (db.get s col key))
  unfolding commit commit_root
  commit-encode root cache del_ops s (coherent, fits) =
      let (a, ca, exile_ops, runs_a, same_a, coherent_a, fits_a, hashed_a) =
        drain_exiled-CommitsExt lib rlp root cache coherent fits in
      let (b, cb, put_ops, runs_b, same_b, coherent_b, fits_b, hashed_b) =
        commit_node-CommitsExt lib rlp n false a ca coherent_a fits_a in
      let (c, cc', runs_c, same_c, coherent_c, fits_c) =
        drain_loaded-KeepsExt lib rlp b cb coherent_b fits_b in
      let (d, cd, runs_d, bare_d, coherent_d, fits_d) =
        hash-encode lib rlp true c cc' coherent_c fits_c in
      let same = same_c ∙ (same_b ∙ same_a) in
      let digest = lib.keccak (encode lib rlp root) in
      let ops = exile_ops ++ put_ops in
      let deleted = write_each lib rlp db n s (map (delete_op lib rlp) del_ops) in
      let written = write_each lib rlp db n deleted (map (insert_op lib rlp) ops) in
      let rooted = insert 0 root_key (lib.as_bytes digest) ∷ [] in
      (
        d,
        cd,
        ops,
        db.flush (db.write_buffered written rooted),
        rw runs_a (
            rw runs_b (
              rw runs_c (
                rw runs_d (
                  ap
                    (λ (h : lib.H256). some (
                      h,
                      (
                        record { root = some (ext d cd); del_ops = [] },
                        db.flush
                            (db.write_buffered written (insert 0 root_key (lib.as_bytes h) ∷ [])),
                      ),
                    ))
                    (ap lib.keccak same))))),
        encode-bare_eq lib rlp d c bare_d ∙ same,
        (coherent_d, fits_d),
        All-append (λ (op : lib.H256 × Bytes). op.0 ≡ lib.keccak op.1) exile_ops put_ops hashed_a
            hashed_b,
        λ col key.
            db.get-flush (db.write_buffered written rooted) col key
            ∙ (db.get-write_buffered written rooted col key
                ∙ (ap (after_ops rooted col key) (
                      get-write_each (map (insert_op lib rlp) ops) deleted col key
                      ∙ ap (after_ops (map (insert_op lib rlp) ops) col key)
                          (get-write_each (map (delete_op lib rlp) del_ops) s col key))
                    ∙ sym (saved_lem del_ops ops digest col key (db.get s col key)))),
      )
