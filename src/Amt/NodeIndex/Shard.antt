-- ===== src/Amt/NodeIndex/Shard.antt =====
-- A shard maintains exactly the nodes that the proofs of its leaves read.
use extended_hypertrie_authe.Prelude.{
  ℕ, suc, ◌+◌, ◌-◌, ◌^◌, ◌≤◌, ◌<◌, Option, some, Bool, true, false, ◌==◌, ◌≡◌, inl, inr, refl, ap,
  sym, shl-lt, shr-shl, shr-shl_self, ltb, leb, shl, shr, shr-shr, if◌then◌else◌, arith, ==_iff,
  Bool-cases, ltb→lt, ◌∙◌,
}
use extended_hypertrie_authe.Prelude.Bits.{flip, flip-flip, shr-flip}
use extended_hypertrie_authe.Amt.NodeIndex.{
  NodeIndex, node_beq, root, needs_maintain_inner, needs_maintain,
}
use extended_hypertrie_authe.Amt.NodeIndex.Laws.{
  IsNode, Below, sibling_of, ancestor_of, to_sibling-eq, flip-inside, sibling_of-IsNode,
  ancestor_of-IsNode,
}

seen_above : (h d up p : ℕ) → d < h - up → shr (flip (shr p up)) (h - up - d) ≡ shr p (h - d)
seen_above h d up p lt =
    let k = h - up - d - 1 in
    let e : h - up - d ≡ suc k = omega arith in
    rw e (shr-flip (shr p up) k ∙ shr-shr p up (suc k) ∙ ap (λ (t : ℕ). shr p t) (omega arith))

seen_under :
    (h d up p : ℕ)
    → d ≤ h
    → up < h
    → h - up ≤ d
    → flip (flip (shr p up)) ≡ shr (shr p (h - d)) (d - (h - up))
seen_under h d up p a b c =
    flip-flip (shr p up)
    ∙ sym (shr-shr p (h - d) (d - (h - up)) ∙ ap (λ (t : ℕ). shr p t) (omega arith))

node_path : {a b : NodeIndex} → a.depth ≡ b.depth → a.index ≡ b.index → a ≡ b
node_path p q = λ i. record { depth = p i; index = q i }

payload_true : {b : Bool} → some b ≡ some true → b ≡ true
payload_true {b} h = ground arith

-- The answer for a node that is not the root.
abbrev pub maintained : NodeIndex → NodeIndex → Bool
maintained node shard_root =
    if ltb shard_root.depth node.depth
    then shr node.index (node.depth - shard_root.depth) == shard_root.index
    else flip node.index == shr shard_root.index (shard_root.depth - node.depth)

module _ (height : ℕ) where
  pub needs_maintain-eq :
      (node shard_root : NodeIndex)
      → IsNode height node
      → 1 ≤ node.depth
      → needs_maintain height node shard_root ≡ some (maintained node shard_root)
  unfolding needs_maintain needs_maintain_inner root node_beq
  needs_maintain-eq node shard_root v p =
      let top : leb 0 height ≡ true = ground arith in
      let below : (node.depth == 0) ≡ false = ground arith in
      rw (top, below, to_sibling-eq height node v p) (pull (ltb shard_root.depth node.depth) _ _)
    where
      pull :
          (t a b : Bool)
          → ◌≡◌ {A = Option Bool} (if t then some a else some b) (some (if t then a else b))
      pull true a b = refl
      pull false a b = refl

  -- A node that a proof of a leaf of the shard reads: the sibling of an ancestor of the leaf.
  pub record ReadBy (shard_root node : NodeIndex) : Type 0 where
    pub position : ℕ
    pub up : ℕ
    pub position-lt : position < 2 ^ height
    pub up-lt : up < height
    pub in_shard : Below (record { depth = height; index = position }) shard_root
    pub read : node ≡ sibling_of (ancestor_of (record { depth = height; index = position }) up)

  maintained-leaf :
      (shard_root : NodeIndex) (p up : ℕ)
      → up < height
      → Below (record { depth = height; index = p }) shard_root
      → maintained (sibling_of (ancestor_of (record { depth = height; index = p }) up)) shard_root
        ≡ true
  maintained-leaf shard_root p up u b = elim (Bool-cases (ltb shard_root.depth (height - up))) [
    | inl above ↦
        let lt = ltb→lt shard_root.depth (height - up) above in
        rw above ((==_iff _ _).1 (seen_above height shard_root.depth up p lt ∙ b.same))
    | inr under ↦
        let le : height - up ≤ shard_root.depth = ground arith in
        rw under (
          (==_iff _ _).1 (
            seen_under height shard_root.depth up p b.deeper u le
            ∙ ap (λ (t : ℕ). shr t (shard_root.depth - (height - up))) b.same))
  ]

  -- Every node that a proof of a leaf of the shard reads is maintained; the root of the shard is a
  -- node of the tree.
  pub needs_maintain-ReadBy :
      (shard_root node : NodeIndex)
      → IsNode height shard_root
      → ReadBy shard_root node
      → needs_maintain height node shard_root ≡ some true
  needs_maintain-ReadBy shard_root node v r =
      let leaf : NodeIndex = record { depth = height; index = r.position } in
      let top = ancestor_of leaf r.up in
      let leaf_is : IsNode height leaf = record { inside = r.position-lt; low = omega arith } in
      let top_is = ancestor_of-IsNode height leaf r.up leaf_is (omega (arith, r.up-lt)) in
      let deep : 1 ≤ top.depth = omega (arith, r.up-lt) in
      rw r.read (
        needs_maintain-eq (sibling_of top) shard_root (sibling_of-IsNode height top top_is deep)
          deep
        ∙ ap some (maintained-leaf shard_root r.position r.up r.up-lt r.in_shard))

  -- The leaf is one below the node's sibling.
  reader_above :
      (shard_root node : NodeIndex)
      → IsNode height node
      → shard_root.depth < node.depth
      → shr node.index (node.depth - shard_root.depth) ≡ shard_root.index
      → ReadBy shard_root node
  reader_above shard_root node n lt e =
      let up = height - node.depth in
      let position = shl (flip node.index) up in
      let k = node.depth - shard_root.depth - 1 in
      let deep : node.depth - shard_root.depth ≡ suc k = omega arith in
      let split : height - shard_root.depth ≡ up + suc k = omega (arith, n.low) in
      record {
        position = position;
        up = up;
        position-lt =
            shl-lt height node.depth (flip node.index) n.low
              (flip-inside node.depth node.index (omega arith) n.inside);
        up-lt = omega (arith, n.low);
        in_shard = record {
          deeper = omega (arith, n.low);
          same =
              rw split
                (shr-shl (flip node.index) up (suc k) ∙ shr-flip node.index k ∙ rw (← deep) e);
        };
        read =
            node_path (omega (arith, n.low))
              (sym (ap flip (shr-shl_self (flip node.index) up) ∙ flip-flip node.index));
      }

  -- The leaf is one below the root of the shard.
  reader_under :
      (shard_root node : NodeIndex)
      → IsNode height shard_root
      → IsNode height node
      → 1 ≤ node.depth
      → node.depth ≤ shard_root.depth
      → flip node.index ≡ shr shard_root.index (shard_root.depth - node.depth)
      → ReadBy shard_root node
  reader_under shard_root node v n p le e =
      let up = height - node.depth in
      let low = height - shard_root.depth in
      let position = shl shard_root.index low in
      let split : up ≡ low + (shard_root.depth - node.depth) = omega (arith, v.low) in
      record {
        position = position;
        up = up;
        position-lt = shl-lt height shard_root.depth shard_root.index v.low v.inside;
        up-lt = omega (arith, n.low);
        in_shard = record { deeper = v.low; same = shr-shl_self shard_root.index low };
        read = node_path (omega (arith, n.low)) (
            sym (
              ap flip
                (rw split (shr-shl shard_root.index low (shard_root.depth - node.depth)) ∙ sym e)
              ∙ flip-flip node.index));
      }

  -- Every node of the tree below the root that is maintained is read by a proof of a leaf of the
  -- shard; the root of the shard is a node of the tree.
  pub ReadBy-needs_maintain :
      (shard_root node : NodeIndex)
      → IsNode height shard_root
      → IsNode height node
      → 1 ≤ node.depth
      → needs_maintain height node shard_root ≡ some true
      → ReadBy shard_root node
  ReadBy-needs_maintain shard_root node v n p h =
      let answer : maintained node shard_root ≡ true =
        payload_true (sym (needs_maintain-eq node shard_root n p) ∙ h) in
      elim (Bool-cases (ltb shard_root.depth node.depth)) [
        | inl above ↦
            reader_above shard_root node n (ltb→lt shard_root.depth node.depth above)
              ((==_iff _ _).0 (rw above at answer))
        | inr under ↦
            reader_under shard_root node v n p (ground arith) ((==_iff _ _).0 (rw under at answer))
      ]
