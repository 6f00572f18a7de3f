-- ===== src/Amt/Tree/Guard.antt =====
-- amt/write_guard.rs: a write guard keeps the commitment of its tree in step with the data.
use extended_hypertrie_authe.Prelude.{
  ℕ, ◌+◌, ◌-◌, ◌^◌, ◌≤◌, ◌<◌, Option, none, some, true, false, ltb, shl, ◌==◌, ◌≡◌, refl, ap, sym,
  ◌∙◌, arith, Bool-cases, inl, inr, get_elem?, nat_eq,
}
use extended_hypertrie_authe.Prelude.Options.{◌>>=◌}
use extended_hypertrie_authe.Storage.Backend.{KeyValueDb}
use extended_hypertrie_authe.Storage.Layout.{flatten_array}
use extended_hypertrie_authe.Storage.Access.{DbAccess, World, set_entry}
use extended_hypertrie_authe.Storage.Access.View.{view, touch, get_mut-eq-view, view-set_entry}
use extended_hypertrie_authe.Amt.Params.{Curve, AmtParams, get_idents_pow}
use extended_hypertrie_authe.Amt.Tree.{AmtConfig, AmTree, set_data, update, drop_guard}

module _ (c : Curve) (cfg : AmtConfig c) (db : KeyValueDb) (pp : AmtParams c)
    (w : World db.State) where
  -- What a reader of the tree sees at an index.
  abbrev pub data_at : AmTree c cfg → ℕ → Option cfg.Data
  data_at t = view db cfg.data_serde flatten_array cfg.default_data t.data_entries w

  set_data-shown :
      (t : AmTree c cfg) (index : ℕ) (present value : cfg.Data)
      → index < 2 ^ cfg.depths
      → data_at t index ≡ some present
      → (a : DbAccess ℕ cfg.Data) × (set_data c cfg db t w index (λ _. value)
          ≡ some (record t { data_entries = a }))
        × (view db cfg.data_serde flatten_array cfg.default_data a w index ≡ some value)
  unfolding set_data
  set_data-shown t index present value inside h =
      let legal : ltb index (shl 1 cfg.depths) ≡ true = ground arith in
      let read =
        touch db cfg.data_serde flatten_array cfg.default_data t.data_entries index present in
      let self : (index == index) ≡ true = ground arith in
      (
        set_entry read index value,
        rw (
          legal,
          get_mut-eq-view db cfg.data_serde flatten_array cfg.default_data t.data_entries w index
              (λ _. value),
          h,
        ),
        view-set_entry db cfg.data_serde flatten_array cfg.default_data read w index value index
            ∙ rw self,
      )

  -- On a tree without a shard, whose commitment has the multiple of the index's point for the old
  -- value in it, a guard that is dropped with a value that is not smaller leaves the multiple for
  -- the new value in the commitment, and the new value at the index.
  pub drop_guard-commitment :
      (r : ℕ) (t : AmTree c cfg) (index : ℕ) (present old value : cfg.Data) (m n : ℕ) (g rest : c.G)
      → index < 2 ^ cfg.depths
      → t.shard_root ≡ none
      → data_at t index ≡ some present
      → cfg.as_fr_int old ≡ some m
      → cfg.as_fr_int value ≡ some n
      → m ≤ n
      → get_elem? pp.commitments index ≡ some g
      → t.commitment ≡ some (c.add rest (c.mul g m))
      → ((do t' ← drop_guard c cfg db pp r t w index old value; t'.commitment)
          ≡ some (c.add rest (c.mul g n)))
        × ((do t' ← drop_guard c cfg db pp r t w index old value; data_at t' index) ≡ some value)
  unfolding drop_guard update get_idents_pow
  drop_guard-commitment r t index present old value m n g rest inside shard here om vn le point
        comm =
      let (a, ran, seen) = set_data-shown t index present value inside here in
      let legal : ltb index (shl 1 cfg.depths) ≡ true = ground arith in
      let grows : ltb n m ≡ false = ground arith in
      let split : m + (n - m) ≡ n = omega (arith, le) in
      let sum : c.add (c.add rest (c.mul g m)) (c.mul g (n - m)) ≡ c.add rest (c.mul g n) =
        c.add_assoc rest (c.mul g m) (c.mul g (n - m))
        ∙ ap (c.add rest) (sym (c.mul-add g m (n - m)) ∙ ap (c.mul g) split) in
      elim (Bool-cases (n - m == 0)) [
        | inl same ↦
            let e : n ≡ m = ground arith in
            rw (om, vn, grows, ran, legal, same) (comm ∙ rw e refl, seen)
        | inr more ↦ rw (om, vn, grows, ran, legal, more, point, comm, shard) (ap some sum, seen)
      ]
