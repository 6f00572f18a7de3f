-- ===== src/LvmtDb/Reads.antt =====
-- A read of the database caches, and changes no value.
use extended_hypertrie_authe.Prelude.{
  ℕ, Option, none, some, false, ◌≡◌, refl, ap, sym, ◌∙◌, list_eq, inl, inr, Option-cases,
  Bool-cases,
}
use extended_hypertrie_authe.Prelude.Maps.{lookup, insert, lookup-insert}
use extended_hypertrie_authe.Prelude.Options.{◌>>=◌}
use extended_hypertrie_authe.Serde.{Bytes}
use extended_hypertrie_authe.Storage.Backend.{KeyValueDb}
use extended_hypertrie_authe.Storage.Access.{World}
use extended_hypertrie_authe.Amt.Params.{Curve}
use extended_hypertrie_authe.MultiLayer.Key.{Key}
use extended_hypertrie_authe.LvmtDb.{LvmtDb, stored_value, current_value, get_value}
use extended_hypertrie_authe.LvmtDb.Values.{Value}

abbrev pub value_of : Option Value → Option Bytes
value_of none = none
value_of (some v) = some v.value

module _ (c : Curve) (depths : ℕ) (db : KeyValueDb) where
  -- The value that was loaded is current, and so is every other.
  current_value-loaded :
      (d : LvmtDb c depths) (w : World db.State) (key other : Key) (v : Option Value)
      → lookup key.bytes d.cache ≡ none
      → stored_value c depths db w key ≡ some v
      → current_value c depths db (record d { cache = insert key.bytes (v, false) d.cache }) w other
        ≡ current_value c depths db d w other
  unfolding current_value stored_value
  current_value-loaded d w key other v vacant h =
      elim (Bool-cases (list_eq.beq key.bytes other.bytes)) [
        | inl same ↦
            let e = (list_eq.beq_iff key.bytes other.bytes).0 same in
            let gone : lookup other.bytes d.cache ≡ none = rw e at vacant in
            rw (lookup-insert key.bytes other.bytes (v, false) d.cache, current_value)
              (rw same (rw (gone, current_value) (sym (ap (λ b. stored_bytes b) (sym e) ∙ h))))
        | inr differ ↦
            rw (lookup-insert key.bytes other.bytes (v, false) d.cache, current_value)
              (rw differ refl)
      ]
    where
      stored_bytes : Bytes → Option (Option Value)
      stored_bytes b = stored_value c depths db w (record { bytes = b })

  bytes_of :
      (v : Option Value)
      → ◌≡◌ {A = Option (Option Bytes)}
          (some (elim v [ none ↦ none | some x ↦ some x.value ]))
          (some (value_of v))
  bytes_of none = refl
  bytes_of (some x) = refl

  -- The read of a key that is not cached, from its stored value on.
  abbrev read_from :
      LvmtDb c depths → Key → Option (Option Value) → Option (Option Bytes × LvmtDb c depths)
  read_from d key o = do
    (v, d') ← (do v ← o; some (v, record d { cache = insert key.bytes (v, false) d.cache }))
    some (elim v [ none ↦ none | some x ↦ some x.value ], d')

  read_missing :
      (d : LvmtDb c depths) (w : World db.State) (key other : Key) (o : Option (Option Value))
      → lookup key.bytes d.cache ≡ none
      → stored_value c depths db w key ≡ o
      → ((do (bytes, d') ← read_from d key o; some bytes) ≡ (do v ← o; some (value_of v)))
        × ((do (bytes, d') ← read_from d key o; current_value c depths db d' w other)
            ≡ (do v ← o; current_value c depths db d w other))
  read_missing d w key other none vacant h = (refl, refl)
  read_missing d w key other (some v) vacant h =
      (bytes_of v, current_value-loaded d w key other v vacant h)

  -- A read returns the bytes of the current value of its key, and panics exactly where there is an
  -- entry that does not decode; after it every key has the current value that it had.
  pub get_value-current_value :
      (d : LvmtDb c depths) (w : World db.State) (key other : Key)
      → ((do (bytes, d') ← get_value c depths db d w key; some bytes)
          ≡ (do v ← current_value c depths db d w key; some (value_of v)))
        × ((do (bytes, d') ← get_value c depths db d w key; current_value c depths db d' w other)
            ≡ (do v ← current_value c depths db d w key; current_value c depths db d w other))
  unfolding get_value current_value
  get_value-current_value d w key other = elim (Option-cases (lookup key.bytes d.cache)) [
    | inr (entry, found) ↦ rw (found, current_value) (bytes_of entry.0, refl)
    | inl vacant ↦
        rw (vacant, get_value, current_value)
          (read_missing d w key other (stored_value c depths db w key) vacant refl)
  ]
