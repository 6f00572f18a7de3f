-- ===== src/Storage/Access/View.antt =====
-- What a reader of `DBAccess` sees, and how reads and writes change it.
use extended_hypertrie_authe.Prelude.{
  [], ◌∷◌, Option, none, some, Bool, true, false, ◌≡◌, if◌then◌else◌, Eq, All, arith, inl, inr,
  Bool-cases, Option-cases,
}
use extended_hypertrie_authe.Prelude.Maps.{
  Assoc, lookup, insert, IsMap, lookup-insert, insert-IsMap,
}
use extended_hypertrie_authe.Prelude.Options.{◌>>=◌}
use extended_hypertrie_authe.Serde.{Serde}
use extended_hypertrie_authe.Storage.Backend.{KeyValueDb}
use extended_hypertrie_authe.Storage.Layout.{Layout}
use extended_hypertrie_authe.Storage.Access.{
  DbAccess, World, load, ensure_cached, get, get_mut, set_entry,
}

-- What the cache and the database say together of an entry.
abbrev pub cached_or : {V : Type 0} → Option (V × Bool) → Option V → Option V
cached_or (some (v, _)) below = some v
cached_or none below = below

-- The key is of the family, and a value that is to be written is of the type.
abbrev pub EntryFits : {K V : Type 0} → Serde V → Layout K → K × (V × Bool) → Type 0
EntryFits s l (k, (v, dirty)) = l.Fits k × (dirty ≡ true → s.Fits v)

module _ {K V : Type 0} ⦃e : Eq K⦄ (s : Serde V) (l : Layout K) where
  insert-EntryFits :
      (k : K) (v : V) (d : Bool) (cache : Assoc K (V × Bool))
      → l.Fits k
      → (d ≡ true → s.Fits v)
      → All (EntryFits s l) cache
      → All (EntryFits s l) (insert k (v, d) cache)
  unfolding insert
  insert-EntryFits k v d [] fk fv f = ((fk, fv), tt)
  insert-EntryFits k v d ((j, (w, b)) ∷ cache) fk fv f = elim (Bool-cases (e.beq j k)) [
    | inl same ↦ rw same ((fk, fv), f.1)
    | inr other ↦ rw other (f.0, insert-EntryFits k v d cache fk fv f.1)
  ]

module _ (db : KeyValueDb) {K V : Type 0} ⦃e : Eq K⦄ (s : Serde V) (l : Layout K)
    (default : V) where
  -- The value at an index: the cached one, or that of the database.
  unfoldable pub view : DbAccess K V → World db.State → K → Option V
  view a w k = cached_or (lookup k a.cache) (load db s l default a w k)

  -- The cache holds each index once, its entries are of the family, and the clean ones are those
  -- of the database.
  pub record IsCoherent (a : DbAccess K V) (w : World db.State) : Type 0 where
    pub is_map : IsMap a.cache
    pub fits : All (EntryFits s l) a.cache
    pub clean :
        (k : K) (v : V) → lookup k a.cache ≡ some (v, false) → load db s l default a w k ≡ some v

  unfoldable pub touch : DbAccess K V → K → V → DbAccess K V
  touch a k v = elim (lookup k a.cache) [
    | some _ ↦ a
    | none ↦ record a { cache = insert k (v, false) a.cache }
  ]

  -- A read returns what the view shows, and panics exactly where the view has no value.
  pub get-eq-view :
      (a : DbAccess K V) (w : World db.State) (k : K)
      → get db s l default a w k ≡ (do v ← view a w k; some (v, touch a k v))
  unfolding get ensure_cached view touch
  get-eq-view a w k = ground arith

  -- A read changes the view of no index.
  pub view-touch :
      (a : DbAccess K V) (w : World db.State) (k : K) (v : V) (j : K)
      → view a w k ≡ some v
      → view (touch a k v) w j ≡ view a w j
  unfolding view load touch
  view-touch a w k v j h = ground (arith, lookup-insert k j (v, false) a.cache, e.beq_iff k j)

  pub touch-IsCoherent :
      (a : DbAccess K V) (w : World db.State) (k : K) (v : V)
      → l.Fits k
      → view a w k ≡ some v
      → IsCoherent a w
      → IsCoherent (touch a k v) w
  unfolding view load touch
  touch-IsCoherent a w k v fk h c = elim (Option-cases (lookup k a.cache)) [
    | inr (x, found) ↦ rw (found, touch) c
    | inl vacant ↦
        rw (vacant, touch)
          (record {
            is_map = insert-IsMap k (v, false) a.cache c.is_map;
            fits = insert-EntryFits s l k v false a.cache fk (λ d. cc) c.fits;
            clean = λ j x g.
                ground (arith, lookup-insert k j (v, false) a.cache, c.clean j x, e.beq_iff k j);
          })
  ]

  pub get_mut-eq-view :
      (a : DbAccess K V) (w : World db.State) (k : K) (f : V → V)
      → get_mut db s l default a w k f ≡ (do v ← view a w k; some (set_entry (touch a k v) k (f v)))
  unfolding get_mut ensure_cached view set_entry touch
  get_mut-eq-view a w k f = ground arith

  -- A write changes the view of its index alone.
  pub view-set_entry :
      (a : DbAccess K V) (w : World db.State) (k : K) (v : V) (j : K)
      → view (set_entry a k v) w j ≡ (if e.beq k j then some v else view a w j)
  unfolding view set_entry load
  view-set_entry a w k v j = ground (arith, lookup-insert k j (v, true) a.cache)

  pub set_entry-IsCoherent :
      (a : DbAccess K V) (w : World db.State) (k : K) (v : V)
      → l.Fits k
      → s.Fits v
      → IsCoherent a w
      → IsCoherent (set_entry a k v) w
  unfolding set_entry load
  set_entry-IsCoherent a w k v fk fv c = record {
    is_map = insert-IsMap k (v, true) a.cache c.is_map;
    fits = insert-EntryFits s l k v true a.cache fk (λ _. fv) c.fits;
    clean = λ j x h. ground (arith, lookup-insert k j (v, true) a.cache, c.clean j x);
  }
