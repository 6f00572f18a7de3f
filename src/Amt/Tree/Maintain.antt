-- ===== src/Amt/Tree/Maintain.antt =====
-- What the loop of `update` does to the nodes of a tree.
use extended_hypertrie_authe.Prelude.{
  ℕ, zero, suc, ◌+◌, ◌-◌, ◌^◌, ◌≤◌, ◌<◌, Option, some, Bool, true, false, ltb, leb, ◌==◌, ◌&&◌, shr,
  if◌then◌else◌, ◌≡◌, refl, ap, sym, ◌∙◌, arith, Bool-cases, inl, inr,
}
use extended_hypertrie_authe.Prelude.Options.{◌>>=◌}
use extended_hypertrie_authe.Storage.Backend.{KeyValueDb}
use extended_hypertrie_authe.Storage.Access.{DbAccess, World, set_entry}
use extended_hypertrie_authe.Storage.Access.View.{
  view, touch, get_mut-eq-view, view-set_entry, view-touch,
}
use extended_hypertrie_authe.Amt.NodeIndex.{NodeIndex, node_beq, node_beq_iff, node_eq}
use extended_hypertrie_authe.Amt.NodeIndex.Laws.{IsNode, to_ancestor-eq, ancestor_of-IsNode}
use extended_hypertrie_authe.Amt.NodeIndex.Shard.{maintained, needs_maintain-eq}
use extended_hypertrie_authe.Amt.Layout.{flatten_tree}
use extended_hypertrie_authe.Amt.Node.{AmtNode, node_serde}
use extended_hypertrie_authe.Amt.Params.{Curve, AmtParams, get_quotient_pow}
use extended_hypertrie_authe.Amt.Tree.{
  AmtConfig, default_node, add_to_node, maintain_node, maintain_nodes,
}

-- The node at an index is an ancestor of the leaf at `p`, from `height` on and `count` levels
-- up, and the shard maintains it.
unfoldable pub on_path : ℕ → ℕ → NodeIndex → ℕ → ℕ → NodeIndex → Bool
on_path depths p shard_root height count j =
    let up = depths - j.depth in
    leb height up && (ltb up (height + count) && (shr p up == j.index && maintained j shard_root))

on_path-here :
    (depths p : ℕ) (shard_root : NodeIndex) (height count : ℕ)
    → height ≤ depths
    → (on_path depths p shard_root height
          (suc count)
          (record { depth = depths - height; index = shr p height })
        ≡ maintained (record { depth = depths - height; index = shr p height }) shard_root)
      × (on_path depths p shard_root
            (suc height)
            count
            (record { depth = depths - height; index = shr p height })
          ≡ false)
unfolding on_path
on_path-here depths p shard_root height count h =
    let up : depths - (depths - height) ≡ height = omega arith in
    let from : leb height height ≡ true = ground arith in
    let to : ltb height (height + suc count) ≡ true = ground arith in
    let here : (shr p height == shr p height) ≡ true = ground arith in
    let above : leb (suc height) height ≡ false = ground arith in
    (rw (up, from, to, here), rw (up, above))

on_path-none :
    (depths p : ℕ) (shard_root : NodeIndex) (height : ℕ) (j : NodeIndex)
    → on_path depths p shard_root height 0 j ≡ false
unfolding on_path
on_path-none depths p shard_root height j = elim (Bool-cases (leb height (depths - j.depth))) [
  | inl from ↦ let to : ltb (depths - j.depth) (height + 0) ≡ false = ground arith in rw (from, to)
  | inr under ↦ rw under
]

on_path-other :
    (depths p : ℕ) (shard_root : NodeIndex) (height count : ℕ) (j : NodeIndex)
    → height ≤ depths
    → j.depth ≤ depths
    → node_beq (record { depth = depths - height; index = shr p height }) j ≡ false
    → on_path depths p shard_root height (suc count) j
      ≡ on_path depths p shard_root (suc height) count j
unfolding on_path node_beq
on_path-other depths p shard_root height count j h d ne =
    let up = depths - j.depth in
    elim (Bool-cases (up == height)) [
      | inl here ↦
          let e : up ≡ height = ground arith in
          let depth : (depths - height == j.depth) ≡ true = ground arith in
          let differs : (shr p height == j.index) ≡ false = rw depth at ne in
          let from : leb height height ≡ true = ground arith in
          let to : ltb height (height + suc count) ≡ true = ground arith in
          let above : leb (suc height) height ≡ false = ground arith in
          rw (e, from, to, differs, above)
      | inr there ↦
          let from : leb height up ≡ leb (suc height) up = ground arith in
          let to : ltb up (height + suc count) ≡ ltb up (suc height + count) = ground arith in
          rw (from, to)
    ]

module _ (c : Curve) (cfg : AmtConfig c) (db : KeyValueDb) (pp : AmtParams c) (w : World db.State)
    (p : ℕ) (shard_root : NodeIndex) (index update_fr_int : ℕ) (inc_comm : c.G)
    (proofs : ℕ → c.G) where
  abbrev pub shown : DbAccess NodeIndex (AmtNode c) → NodeIndex → Option (AmtNode c)
  shown a = view db (node_serde c) flatten_tree (default_node c cfg db) a w

  abbrev read_at :
      DbAccess NodeIndex (AmtNode c) → NodeIndex → AmtNode c → DbAccess NodeIndex (AmtNode c)
  read_at a = touch db (node_serde c) flatten_tree (default_node c cfg db) a

  -- No node that is read fails to decode.
  abbrev pub Readable : DbAccess NodeIndex (AmtNode c) → Type 0
  Readable a = (j : NodeIndex) → IsNode cfg.depths j → (n : AmtNode c) × (shown a j ≡ some n)

  abbrev pub leaf : NodeIndex
  leaf = record { depth = cfg.depths; index = p }

  abbrev visited : ℕ → NodeIndex
  visited height = record { depth = cfg.depths - height; index = shr p height }

  -- The node after the update, where it is changed.
  abbrev pub changed : Bool → NodeIndex → Option (AmtNode c) → Option (AmtNode c)
  changed hit j old =
      if hit then (do n ← old; some (add_to_node c cfg db pp inc_comm (proofs j.depth) n)) else old

  -- The write at a node that is kept, as a change.
  written :
      (a : DbAccess NodeIndex (AmtNode c)) (k j : NodeIndex) (n : AmtNode c)
      → shown a k ≡ some n
      → (if node_beq k j
          then some (add_to_node c cfg db pp inc_comm (proofs k.depth) n)
          else shown a j)
        ≡ changed (node_beq k j && true) j (shown a j)
  written a k j n h = elim (Bool-cases (node_beq k j)) [
    | inl same ↦
        let e : k ≡ j = (node_beq_iff k j).0 same in
        rw same (rw (ap (shown a) (sym e) ∙ h) (rw (sym e) refl))
    | inr other ↦ rw other refl
  ]

  unchanged :
      (b : Bool) (j : NodeIndex) (old : Option (AmtNode c)) → old ≡ changed (b && false) j old
  unchanged true j old = refl
  unchanged false j old = refl

  maintain_node-shown :
      (a : DbAccess NodeIndex (AmtNode c)) (height : ℕ)
      → p < 2 ^ cfg.depths
      → height < cfg.depths
      → get_quotient_pow c pp (cfg.depths - height) index update_fr_int
        ≡ some (proofs (cfg.depths - height))
      → Readable a
      → (b : DbAccess NodeIndex (AmtNode c)) × (maintain_node c cfg db pp a w leaf shard_root index
            update_fr_int inc_comm height
          ≡ some b)
        × ((j : NodeIndex)
            → shown b j
              ≡ changed
                  (node_beq (visited height) j && maintained (visited height) shard_root)
                  j
                  (shown a j))
  unfolding maintain_node
  maintain_node-shown a height inside low quotient readable =
      let leaf_is : IsNode cfg.depths leaf = record { inside = inside; low = omega arith } in
      let visit = to_ancestor-eq cfg.depths leaf height leaf_is (omega arith) in
      let visit_is = ancestor_of-IsNode cfg.depths leaf height leaf_is (omega arith) in
      let answer =
        needs_maintain-eq cfg.depths (visited height) shard_root visit_is (omega arith) in
      elim (Bool-cases (maintained (visited height) shard_root)) [
        | inl kept ↦
            let k = visited height in
            let (n, h) = readable k visit_is in
            let f = add_to_node c cfg db pp inc_comm (proofs (cfg.depths - height)) in
            (
              set_entry (read_at a k n) k (f n),
              rw visit (
                  rw answer (
                    rw kept (
                      rw quotient (
                        rw
                          (get_mut-eq-view db (node_serde c) flatten_tree (default_node c cfg db) a
                            w k f)
                          (rw h))))),
              λ j. rw kept (
                  view-set_entry db (node_serde c) flatten_tree (default_node c cfg db)
                    (read_at a k n) w k (f n) j
                  ∙ rw
                      (view-touch db (node_serde c) flatten_tree (default_node c cfg db) a w k n j
                        h)
                      (written a k j n h)),
            )
        | inr no_read ↦ (
          a,
          rw visit (rw answer (rw no_read refl)),
          λ j. rw no_read (unchanged (node_beq (visited height) j) j (shown a j)),
        )
      ]

  changed-readable :
      (hit : Bool) (j : NodeIndex) (old : Option (AmtNode c)) (n : AmtNode c)
      → old ≡ some n
      → (m : AmtNode c) × (changed hit j old ≡ some m)
  changed-readable true j old n h = (add_to_node c cfg db pp inc_comm (proofs j.depth) n, rw h)
  changed-readable false j old n h = (n, h)

  -- One step more of the path.
  changed-step :
      (height count : ℕ) (j : NodeIndex) (old : Option (AmtNode c))
      → height < cfg.depths
      → j.depth ≤ cfg.depths
      → changed
          (on_path cfg.depths p shard_root (suc height) count j)
          j
          (changed (node_beq (visited height) j && maintained (visited height) shard_root) j old)
        ≡ changed (on_path cfg.depths p shard_root height (suc count) j) j old
  changed-step height count j old low d = elim (Bool-cases (node_beq (visited height) j)) [
    | inl same ↦
        let e : visited height ≡ j = (node_beq_iff (visited height) j).0 same in
        let (here, above) = on_path-here cfg.depths p shard_root height count (omega arith) in
        rw same (
          rw (ap (λ i. on_path cfg.depths p shard_root (suc height) count i) (sym e) ∙ above) (
            rw (ap (λ i. on_path cfg.depths p shard_root height (suc count) i) (sym e) ∙ here)
              refl))
    | inr other ↦
        rw other
          (rw (on_path-other cfg.depths p shard_root height count j (omega arith) d other) refl)
  ]

  -- Where all its reads succeed the loop ends, and it changes the nodes of the path.
  pub maintain_nodes-shown :
      (a : DbAccess NodeIndex (AmtNode c)) (height count : ℕ)
      → p < 2 ^ cfg.depths
      → height + count ≤ cfg.depths
      → ((depth : ℕ)
          → 1 ≤ depth
          → depth ≤ cfg.depths
          → get_quotient_pow c pp depth index update_fr_int ≡ some (proofs depth))
      → Readable a
      → (b : DbAccess NodeIndex (AmtNode c)) × (maintain_nodes c cfg db pp a w leaf shard_root index
            update_fr_int inc_comm height count
          ≡ some b)
        × ((j : NodeIndex)
            → j.depth ≤ cfg.depths
            → shown b j ≡ changed (on_path cfg.depths p shard_root height count j) j (shown a j))
  unfolding maintain_nodes
  maintain_nodes-shown a height zero inside low quotients readable =
      (a, refl, λ j d. rw (on_path-none cfg.depths p shard_root height j))
  maintain_nodes-shown a height (suc count) inside low quotients readable =
      let (b, ran, seen) =
        maintain_node-shown a height inside (omega arith)
          (quotients (cfg.depths - height) (omega arith) (omega arith)) readable in
      let readable' : Readable b = λ j v.
        let (n, h) = readable j v in
        let (m, g) =
          changed-readable (node_beq (visited height) j && maintained (visited height) shard_root) j
            (shown a j) n h in
        (m, seen j ∙ g) in
      let (b', ran', seen') =
        maintain_nodes-shown b (suc height) count inside (omega arith) quotients readable' in
      (
        b',
        rw ran ran',
        λ j d.
            seen' j d
            ∙ ap (changed (on_path cfg.depths p shard_root (suc height) count j) j) (seen j)
            ∙ changed-step height count j (shown a j) (omega arith) d,
      )
