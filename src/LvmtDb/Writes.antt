-- ===== src/LvmtDb/Writes.antt =====
-- What a commit writes and hashes of the values that were set.
use extended_hypertrie_authe.Prelude.{
  ℕ, suc, List, [], ◌∷◌, Option, none, some, ◌≡◌, refl, ap, subst,
}
use extended_hypertrie_authe.Prelude.Options.{>>=-eq-some}
use extended_hypertrie_authe.Serde.{Bytes, to_bytes_local}
use extended_hypertrie_authe.Storage.Backend.{DbOp, insert as insert_op, KeyValueDb}
use extended_hypertrie_authe.Storage.Access.{World}
use extended_hypertrie_authe.Merkle.Hashing.{HashLib}
use extended_hypertrie_authe.Amt.Params.{Curve, AmtParams}
use extended_hypertrie_authe.MultiLayer.Key.{Key}
use extended_hypertrie_authe.MultiLayer.VersionTree.{VerInfo, VersionTree}
use extended_hypertrie_authe.MultiLayer.VersionTree.Visit.{inc_key_ver}
use extended_hypertrie_authe.LvmtDb.{LvmtDb, current_value, commit_values, consensus}
use extended_hypertrie_authe.LvmtDb.Values.{value_serde, write_key_value}

module _ (lib : HashLib) where
  -- The write and the hash of one value: one version, and the position of the hash.
  pub record IsWrite (epoch position : ℕ) (item : Key × Bytes) (op : DbOp) (hash : lib.H256)
      : Type 0 where
    pub version : VerInfo
    pub writes :
        op
        ≡ insert_op 0 (item.0).bytes (
            to_bytes_local value_serde (record {
              value = item.1;
              version = version;
              position = record { epoch = epoch; position = position };
            }))
    pub hashed :
        hash
        ≡ lib.keccak (
            write_key_value
              (record { key = (item.0).bytes; version = version; value = item.1 })
              consensus)

  -- The writes and the hashes are those of the items, one by one, from a position on.
  pub AreWrites : ℕ → ℕ → List (Key × Bytes) → List DbOp → List lib.H256 → Type 0
  AreWrites epoch position [] [] [] = Unit
  AreWrites epoch position (item ∷ items) (op ∷ ops) (hash ∷ hashes) =
      IsWrite epoch position item op hash × AreWrites epoch (suc position) items ops hashes
  AreWrites epoch position _ _ _ = ⊥

module _ (c : Curve) (depths : ℕ) (db : KeyValueDb) (lib : HashLib) (pp : AmtParams c) (r : ℕ) where
  abbrev write_of : ℕ → ℕ → Key × Bytes → VerInfo → DbOp
  write_of epoch position item version = insert_op 0 (item.0).bytes (
      to_bytes_local value_serde (record {
        value = item.1;
        version = version;
        position = record { epoch = epoch; position = position };
      }))

  abbrev hash_of : Key × Bytes → VerInfo → lib.H256
  hash_of item version = lib.keccak (
      write_key_value (record { key = (item.0).bytes; version = version; value = item.1 })
        consensus)

  one_more :
      (epoch position : ℕ) (item : Key × Bytes) (items : List (Key × Bytes)) (version : VerInfo)
      (ops' ops : List DbOp) (hashes' hashes : List lib.H256) (vt vt' : VersionTree c depths)
      → AreWrites lib epoch (suc position) items ops' hashes'
      → ◌≡◌ {A = Option (VersionTree c depths × (List DbOp × List lib.H256))}
          (some (vt, (write_of epoch position item version ∷ ops', hash_of item version ∷ hashes')))
          (some (vt', (ops, hashes)))
      → AreWrites lib epoch position (item ∷ items) ops hashes
  unfolding AreWrites
  one_more epoch position item items version ops' ops hashes' hashes vt vt' tail h =
      let both : List DbOp × List lib.H256 =
        (write_of epoch position item version ∷ ops', hash_of item version ∷ hashes') in
      let e : both ≡ (ops, hashes) = ap (λ o. elim o [ none ↦ both | some p ↦ p.1 ]) h in
      let first : IsWrite lib epoch position item (write_of epoch position item version)
          (hash_of item version) =
        record { version = version; writes = refl; hashed = refl } in
      subst (λ (p : List DbOp × List lib.H256). AreWrites lib epoch position (item ∷ items) p.0 p.1)
        e (first, tail)

  -- The loop of a commit, where it returns, has for each value that was set, in order, one write
  -- and one hash, which agree in the key, the bytes and the version; the write carries the epoch
  -- and the position of the hash.
  pub commit_values-AreWrites :
      (d : LvmtDb c depths) (w : World db.State) (epoch position : ℕ) (items : List (Key × Bytes))
      (vt vt' : VersionTree c depths) (ops : List DbOp) (hashes : List lib.H256)
      → commit_values c depths db lib pp r d w epoch position vt items ≡ some (vt', (ops, hashes))
      → AreWrites lib epoch position items ops hashes
  unfolding commit_values AreWrites
  commit_values-AreWrites d w epoch position [] vt vt' ops hashes h =
      let e : ◌≡◌ {A = List DbOp × List lib.H256} ([], []) (ops, hashes) =
        ap (λ o. elim o [ none ↦ ([], []) | some p ↦ p.1 ]) h in
      subst (λ (p : List DbOp × List lib.H256). AreWrites lib epoch position [] p.0 p.1) e tt
  commit_values-AreWrites d w epoch position (item ∷ items) vt vt' ops hashes h =
      let (last, _, h1) = >>=-eq-some (current_value c depths db d w item.0) _ h in
      let (s, _, h2) =
        >>=-eq-some
          (inc_key_ver c depths db pp r vt w item.0
            (elim last [ none ↦ none | some v ↦ some v.version ]))
          _ h1 in
      let (rest, ran, h3) =
        >>=-eq-some (commit_values c depths db lib pp r d w epoch (suc position) s.1 items) _ h2 in
      let tail =
        commit_values-AreWrites d w epoch (suc position) items s.1 rest.0 rest.1.0 rest.1.1 ran in
      one_more epoch position item items s.0 rest.1.0 ops rest.1.1 hashes rest.0 vt' tail h3
