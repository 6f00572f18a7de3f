-- ===== src/Storage/Access/Flush.antt =====
-- A flush moves the dirty entries to the database and keeps the view.
use extended_hypertrie_authe.Prelude.{
  ℕ, [], ◌∷◌, map, Option, none, some, Bool, true, false, ◌≡◌, refl, ap, ap₂, sym, subst, ◌∙◌,
  if◌then◌else◌, Eq, All, arith, inl, inr, Bool-cases, Option-cases,
}
use extended_hypertrie_authe.Prelude.Maps.{Assoc, lookup, IsMap}
use extended_hypertrie_authe.Serde.{Bytes, Serde, SerdeType, to_bytes_local, from_bytes_local}
use extended_hypertrie_authe.Prelude.Options.{◌>>=◌}
use extended_hypertrie_authe.Storage.Backend.{
  KeyValueDb, column_get, column_write_buffered, set_col, after_ops,
}
use extended_hypertrie_authe.Storage.Layout.{Layout}
use extended_hypertrie_authe.Storage.Access.{
  DbAccess, World, compute_key, load, dirty_ops, flush_cache, decode, new, get_mut, set_entry,
}
use mathlib.Core.List.{append-nil}
use extended_hypertrie_authe.Storage.Access.Keys.{beq-compute_key}
use extended_hypertrie_authe.Storage.Access.View.{
  cached_or, EntryFits, view, IsCoherent, touch, get_mut-eq-view, view-touch, touch-IsCoherent,
  set_entry-IsCoherent, view-set_entry,
}

abbrev payload : {A : Type 0} → A → Option A → A
payload d none = d
payload d (some a) = a

-- What a flush leaves of an entry of the database.
abbrev flushed : {V : Type 0} → (V → Bytes) → Option (V × Bool) → Option Bytes → Option Bytes
flushed bytes none old = old
flushed bytes (some (v, d)) old = if d then some (bytes v) else old

module _ {K V : Type 0} ⦃e : Eq K⦄ (s : Serde V) (l : Layout K) where
  after-dirty_ops :
      (p : Bytes) (c : ℕ) (k : K) (old : Option Bytes) (cache : Assoc K (V × Bool))
      → l.Fits k
      → IsMap cache
      → All (EntryFits s l) cache
      → after_ops (map (set_col c) (dirty_ops s l p cache)) c (compute_key l p k) old
        ≡ flushed (to_bytes_local s) (lookup k cache) old
  unfolding dirty_ops lookup set_col
  after-dirty_ops p c k old [] fk m f = refl
  after-dirty_ops p c k old ((j, (v, false)) ∷ cache) fk m f =
      ground (arith, e.beq_iff j k, after-dirty_ops p c k old cache fk m.1 f.1)
  after-dirty_ops p c k old ((j, (v, true)) ∷ cache) fk m f = ground (
    arith,
    beq-compute_key l p j k f.0.0 fk,
    e.beq_iff j k,
    after-dirty_ops p c k old cache fk m.1 f.1,
    after-dirty_ops p c k (some (to_bytes_local s v)) cache fk m.1 f.1,
  )

  entry_Fits :
      (j k : K) (x v : V) (b : Bool)
      → EntryFits s l (j, (x, b))
      → ◌≡◌ {A = Option (V × Bool)} (some (x, b)) (some (v, true))
      → s.Fits v
  entry_Fits j k x v b f h =
      let value : x ≡ v = ap (λ (o : Option (V × Bool)). (payload (x, b) o).0) h in
      let dirty : b ≡ true = ap (λ (o : Option (V × Bool)). (payload (x, b) o).1) h in
      subst s.Fits value (f.1 dirty)

  lookup-Fits :
      (k : K) (v : V) (cache : Assoc K (V × Bool))
      → lookup k cache ≡ some (v, true)
      → All (EntryFits s l) cache
      → s.Fits v
  unfolding lookup
  lookup-Fits k v [] h f = cc
  lookup-Fits k v ((j, (x, b)) ∷ cache) h f = elim (Bool-cases (e.beq j k)) [
    | inl same ↦ entry_Fits j k x v b f.0 (rw same at h)
    | inr other ↦ lookup-Fits k v cache (rw other at h) f.1
  ]

module _ {V : Type 0} (s : Serde V) (default : V) where
  from_bytes_local-to_bytes_local :
      (v : V) → s.Fits v → from_bytes_local s (to_bytes_local s v) ≡ some v
  unfolding from_bytes_local to_bytes_local
  from_bytes_local-to_bytes_local v h =
      let ty : SerdeType = record { consistent = false } in
      rw (← append-nil (s.write v ty)) (rw (s.read-write v ty [] h))

  decode-flushed :
      (o : Option (V × Bool)) (old : Option Bytes)
      → ((v : V) → o ≡ some (v, true) → s.Fits v)
      → ((v : V) → o ≡ some (v, false) → decode s default old ≡ some v)
      → decode s default (flushed (to_bytes_local s) o old) ≡ cached_or o (decode s default old)
  unfolding decode
  decode-flushed none old f g = refl
  decode-flushed (some (v, true)) old f g = from_bytes_local-to_bytes_local v (f v refl)
  decode-flushed (some (v, false)) old f g = g v refl

module _ (db : KeyValueDb) {K V : Type 0} ⦃e : Eq K⦄ (s : Serde V) (l : Layout K)
    (default : V) where
  pub view-flush_cache :
      (a : DbAccess K V) (w : World db.State) (j : K)
      → l.Fits j
      → IsCoherent db s l default a w
      → view db s l default (flush_cache db s l default a w).0 (flush_cache db s l default a w).1 j
        ≡ view db s l default a w j
  unfolding view flush_cache load column_get column_write_buffered lookup
  view-flush_cache a w j fj c =
      let key = compute_key l a.prefix j in
      let old = column_get db a.column w.store key in
      let ops = dirty_ops s l a.prefix a.cache in
      let written : column_get db a.column (column_write_buffered db a.column w.store ops) key
          ≡ flushed (to_bytes_local s) (lookup j a.cache) old =
        db.get-write_buffered w.store (map (set_col a.column.col) ops) a.column.col key
        ∙ after-dirty_ops s l a.prefix a.column.col j old a.cache fj c.is_map c.fits in
      ap (decode s default) written
      ∙ decode-flushed s default (lookup j a.cache) old
          (λ v h. lookup-Fits s l j v a.cache h c.fits) (c.clean j)

  -- In a coherent cache and for an index of the family: a new access to the family, on the database
  -- after the flush, shows what the old one showed.
  pub view-new-flush_cache :
      (a : DbAccess K V) (w : World db.State) (j : K)
      → l.Fits j
      → IsCoherent db s l default a w
      → view db s l default (new a.prefix a.column) (flush_cache db s l default a w).1 j
        ≡ view db s l default a w j
  unfolding new flush_cache
  view-new-flush_cache a w j fj c = view-flush_cache a w j fj c

  -- A read and a write leave the family and the column of an access as they are.
  set_entry-touch-keeps :
      (a : DbAccess K V) (w : World db.State) (k : K) (v v' : V)
      → ((set_entry (touch db s l default a k v) k v').prefix ≡ a.prefix)
        × ((set_entry (touch db s l default a k v) k v').column ≡ a.column)
  unfolding set_entry touch
  set_entry-touch-keeps a w k v v' = elim (Option-cases (lookup k a.cache)) [
    | inl e ↦ rw (e, touch) (refl, refl)
    | inr (entry, e) ↦ rw (e, touch) (refl, refl)
  ]

  -- In a coherent cache, for indices of the family and a value that fits the encoding: what is
  -- written through `get_mut` reaches the database with the next flush, where a new access to the
  -- family shows it; the new access shows every other index as the old one did, and there is a
  -- panic exactly where the old one has no value at the index that is written.
  pub view-flush_cache-get_mut :
      (a : DbAccess K V) (w : World db.State) (k : K) (f : V → V) (j : K)
      → l.Fits k
      → l.Fits j
      → ((v : V) → view db s l default a w k ≡ some v → s.Fits (f v))
      → IsCoherent db s l default a w
      → (do
        a' ← get_mut db s l default a w k f
        view db s l default (new a.prefix a.column) (flush_cache db s l default a' w).1 j)
        ≡ (do
          v ← view db s l default a w k
          if e.beq k j then some (f v) else view db s l default a w j)
  view-flush_cache-get_mut a w k f j fk fj ff c =
      rw (get_mut-eq-view db s l default a w k f) (after_read (view db s l default a w k) refl)
    where
      after_read :
          (o : Option V)
          → view db s l default a w k ≡ o
          → (do
            a' ← (do v ← o; some (set_entry (touch db s l default a k v) k (f v)))
            view db s l default (new a.prefix a.column) (flush_cache db s l default a' w).1 j)
            ≡ (do v ← o; if e.beq k j then some (f v) else view db s l default a w j)
      after_read none h = refl
      after_read (some v) h =
          let read = touch db s l default a k v in
          let written = set_entry read k (f v) in
          let (prefix, column) = set_entry-touch-keeps a w k v (f v) in
          let coherent =
            set_entry-IsCoherent db s l default read w k (f v) fk (ff v h)
              (touch-IsCoherent db s l default a w k v fk h c) in
          let shown_by = λ (start : DbAccess K V).
            view db s l default start (flush_cache db s l default written w).1 j in
          ap shown_by (ap₂ new (sym prefix) (sym column))
          ∙ view-new-flush_cache written w j fj coherent
          ∙ view-set_entry db s l default read w k (f v) j
          ∙ rw (view-touch db s l default a w k v j h) refl
