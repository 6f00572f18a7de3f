-- ===== src/MultiLayer/VersionTree/Slots.antt =====
-- The slots and versions that a key gets are in range.
use extended_hypertrie_authe.Prelude.{
  ℕ, zero, suc, ◌+◌, ◌*◌, ◌%◌, ◌≤◌, ◌<◌, [], Option, none, some, not, ltb, ltb→lt, length,
  if◌then◌else◌, ◌≡◌, refl, ap, ◌∙◌, arith, Bool-cases, inl, inr, Option-cases, subst, get_or,
  list_eq,
}
use extended_hypertrie_authe.Prelude.Options.{◌>>=◌, >>=-eq-some}
use extended_hypertrie_authe.Storage.Backend.{KeyValueDb}
use extended_hypertrie_authe.Storage.Access.{World}
use extended_hypertrie_authe.Amt.Params.{Curve, AmtParams}
use extended_hypertrie_authe.Prelude.Maps.{lookup}
use extended_hypertrie_authe.Amt.Tree.{get_data, update}
use extended_hypertrie_authe.MultiLayer.Config.{forest_config}
use extended_hypertrie_authe.MultiLayer.Key.{Key, tree_at_level, index_at_level}
use extended_hypertrie_authe.MultiLayer.TreeName.{TreeName}
use extended_hypertrie_authe.MultiLayer.Node.{fr_int_pow_2, max_version_number}
use extended_hypertrie_authe.MultiLayer.VersionTree.{
  push_version, bump_version, VerInfo, Tree, VersionTree,
}
use extended_hypertrie_authe.MultiLayer.VersionTree.Visit.{
  in_proof_shard, get_tree_mut, write_node_versions, with_tree, take_slot, allocate_from,
  allocate_vacant_slot, inc_key_ver,
}

-- The version is a 40-bit number, and the level and the slot are those of a tree and a node.
pub record IsVerInfo (info : VerInfo) : Type 0 where
  pub small : info.version ≤ max_version_number
  pub near : info.level < 32
  pub packed : info.slot_index < 5

module _ (c : Curve) (depths : ℕ) (db : KeyValueDb) where
  with_tree-eq-some :
      {A : Type 0} (vt vt' : VersionTree c depths) (w : World db.State) (name : TreeName)
      (use_tree : Tree c depths → Option (A × Tree c depths)) (a : A)
      → with_tree c depths db vt w name use_tree ≡ some (a, vt')
      → (t : Tree c depths) × (t' : Tree c depths) × (use_tree t ≡ some (a, t'))
  unfolding with_tree
  with_tree-eq-some {A} vt vt' w name use_tree a h =
      let (vt1, _, h1) = >>=-eq-some (get_tree_mut c depths db vt w name) _ h in
      let (info, _, h2) =
        >>=-eq-some (lookup name.path (get_or vt1.forest (length name.path) [])) _ h1 in
      let (r, used, h3) = >>=-eq-some (use_tree info.tree) _ h2 in
      let same : r.0 ≡ a = ap (λ o. elim o [ none ↦ r.0 | some s ↦ s.0 ]) h3 in
      (info.tree, r.1, used ∙ ap (λ b. some (b, r.1)) same)

  module _ (pp : AmtParams c) (r : ℕ) where
    -- A slot that is taken is one of the five.
    take_slot-lt :
        (t t' : Tree c depths) (w : World db.State) (node_index slot : ℕ)
        → take_slot c depths db pp r t w node_index ≡ some (some slot, t')
        → slot < 5
    unfolding take_slot
    take_slot-lt t t' w node_index slot h =
        let (n, _, h1) = >>=-eq-some (get_data c (forest_config c depths) db t w node_index) _ h in
        let count = length n.0.key_versions.versions in
        elim (Bool-cases (ltb count 5)) [
          | inl room ↦
              let (s, _, h2) =
                >>=-eq-some
                  (write_node_versions c depths db pp r n.1 w node_index
                    (λ n. some (push_version n)))
                  _ (rw room at h1) in
              let same : count ≡ slot =
                ap (λ o. elim o [ none ↦ count | some s ↦ elim s.0 [ none ↦ count | some k ↦ k ] ])
                  h2 in
              omega (arith, same, ltb→lt count 5 room)
          | inr full ↦
              let none_left : ◌≡◌ {A = Option ℕ} none (some slot) =
                ap (λ o. elim o [ none ↦ none | some s ↦ s.0 ]) (rw full at h1) in
              cc
        ]

    allocate_from-IsVerInfo :
        (vt vt' : VersionTree c depths) (w : World db.State) (key : Key) (level count : ℕ)
        (info : VerInfo)
        → level + count ≤ 32
        → allocate_from c depths db pp r vt w key level count ≡ some (info, vt')
        → IsVerInfo info × (info.version ≡ 0)
    unfolding allocate_from
    allocate_from-IsVerInfo vt vt' w key level zero info top h = cc
    allocate_from-IsVerInfo vt vt' w key level (suc count) info top h =
        let (path, _, h1) = >>=-eq-some (tree_at_level depths key level) _ h in
        let (node_index, _, h2) = >>=-eq-some (index_at_level depths key level) _ h1 in
        let (s, used, h3) =
          >>=-eq-some
            (with_tree c depths db vt w (record { path = path })
              (λ t. take_slot c depths db pp r t w node_index))
            _ h2 in
        elim (Option-cases s.0) [
          | inl occupied ↦
              allocate_from-IsVerInfo s.1 vt' w key (suc level) count info (omega arith)
                (rw occupied at h3)
          | inr (slot, found) ↦
              let (t, t', taken) =
                with_tree-eq-some vt s.1 w (record { path = path })
                  (λ t. take_slot c depths db pp r t w node_index) s.0 used in
              let small : slot < 5 =
                take_slot-lt t t' w node_index slot (taken ∙ ap (λ o. some (o, t')) found) in
              let first : VerInfo = record {
                version = 0;
                level = level;
                slot_index = slot % 256;
              } in
              let same : first ≡ info =
                ap (λ o. elim o [ none ↦ info | some r ↦ r.0 ]) (rw found at h3) in
              let valid : IsVerInfo first = record {
                small = omega arith;
                near = omega arith;
                packed = omega (arith, small);
              } in
              subst (λ i. IsVerInfo i × (i.version ≡ 0)) same (valid, refl)
        ]

    -- A key without a version gets version 0, one of 32 levels and one of five slots.
    pub allocate_vacant_slot-IsVerInfo :
        (vt vt' : VersionTree c depths) (w : World db.State) (key : Key) (info : VerInfo)
        → allocate_vacant_slot c depths db pp r vt w key ≡ some (info, vt')
        → IsVerInfo info × (info.version ≡ 0)
    unfolding allocate_vacant_slot
    allocate_vacant_slot-IsVerInfo vt vt' w key info h =
        allocate_from-IsVerInfo vt vt' w key 0 32 info (omega arith) h

    next_version :
        (v info : VerInfo) (vt vt' : VersionTree c depths)
        → IsVerInfo v
        → ◌≡◌ {A = Option (VerInfo × VersionTree c depths)}
            (if ltb v.version max_version_number
              then some (record v { version = v.version + 1 }, vt)
              else none)
            (some (info, vt'))
        → IsVerInfo info × (info.version ≡ v.version + 1)
    next_version v info vt vt' valid h = elim (Bool-cases (ltb v.version max_version_number)) [
      | inl room ↦
          let next : VerInfo = record v { version = v.version + 1 } in
          let same : next ≡ info = ap (λ o. elim o [ none ↦ next | some p ↦ p.0 ]) (rw room at h) in
          let below = ltb→lt v.version max_version_number room in
          let ok : IsVerInfo next = record {
            small = omega (arith, below);
            near = valid.near;
            packed = valid.packed;
          } in
          subst (λ i. IsVerInfo i × (i.version ≡ v.version + 1)) same (ok, refl)
      | inr full ↦
          let none_left : ◌≡◌ {A = Option VerInfo} none (some info) =
            ap (λ o. elim o [ none ↦ none | some p ↦ some p.0 ]) (rw full at h) in
          cc
    ]

    inc_key_ver-some :
        (vt vt' : VersionTree c depths) (w : World db.State) (key : Key) (v info : VerInfo)
        → IsVerInfo v
        → inc_key_ver c depths db pp r vt w key (some v) ≡ some (info, vt')
        → IsVerInfo info × (info.version ≡ v.version + 1)
    unfolding inc_key_ver
    inc_key_ver-some vt vt' w key v info valid h =
        let (path, _, h1) = >>=-eq-some (tree_at_level depths key v.level) _ h in
        let (node, _, h2) = >>=-eq-some (index_at_level depths key v.level) _ h1 in
        let (shard, _, h3) = >>=-eq-some (in_proof_shard c depths db pp r vt key) _ h2 in
        let (s, _, h4) =
          >>=-eq-some
            (with_tree c depths db vt w (record { path = path })
              (λ t.
                if not shard
                then (do
                  t' ←
                      update c (forest_config c depths) db pp t w node
                        (fr_int_pow_2 ((v.slot_index + 1) * 40))
                  some (tt, t'))
                else (do
                  (_, t') ←
                      write_node_versions c depths db pp r t w node (bump_version v.slot_index)
                  some (tt, t'))))
            _ h3 in
        next_version v info s.1 vt' valid h4

    -- What a key's last version becomes, from 0 for a key that has none.
    abbrev pub last_version : Option VerInfo → ℕ
    last_version none = 0
    last_version (some info) = info.version

    -- `inc_key_ver`, where it returns, of a key whose version, if it has one, is in range: the new
    -- version is the last one and 1, a 40-bit number, at one of 32 levels and one of five slots.
    pub inc_key_ver-IsVerInfo :
        (vt vt' : VersionTree c depths) (w : World db.State) (key : Key) (last : Option VerInfo)
        (info : VerInfo)
        → ((v : VerInfo) → last ≡ some v → IsVerInfo v)
        → inc_key_ver c depths db pp r vt w key last ≡ some (info, vt')
        → IsVerInfo info × (info.version ≡ last_version last + 1)
    unfolding inc_key_ver
    inc_key_ver-IsVerInfo vt vt' w key none info valid h =
        let (s, got, h1) = >>=-eq-some (allocate_vacant_slot c depths db pp r vt w key) _ h in
        let (ok, first) = allocate_vacant_slot-IsVerInfo vt s.1 w key s.0 got in
        let (ok', next) = inc_key_ver-some s.1 vt' w key s.0 info ok h1 in
        (ok', next ∙ omega (arith, first))
    inc_key_ver-IsVerInfo vt vt' w key (some v) info valid h =
        inc_key_ver-some vt vt' w key v info (valid v refl) h
