-- ===== src/Amt/Tree/Update.antt =====
-- What `update` does to a tree that keeps nodes for the proofs of a shard.
use extended_hypertrie_authe.Prelude.{
  ℕ, ◌+◌, ◌-◌, ◌^◌, ◌≤◌, ◌<◌, Option, some, Bool, true, false, ltb, leb, shl, ◌==◌, ◌&&◌,
  if◌then◌else◌, ◌≡◌, refl, ap, ◌∙◌, arith,
}
use extended_hypertrie_authe.Prelude.Options.{◌>>=◌}
use extended_hypertrie_authe.Storage.Backend.{KeyValueDb}
use extended_hypertrie_authe.Storage.Access.{World}
use extended_hypertrie_authe.Amt.NodeIndex.{NodeIndex}
use extended_hypertrie_authe.Amt.NodeIndex.Laws.{IsNode, new_index-eq}
use extended_hypertrie_authe.Amt.NodeIndex.Shard.{maintained}
use extended_hypertrie_authe.Amt.Bitreverse.{bitreverse, bitreverse-lt, shr-bitreverse}
use extended_hypertrie_authe.Amt.Node.{AmtNode}
use extended_hypertrie_authe.Amt.Params.{Curve, AmtParams, get_idents_pow, get_quotient_pow}
use extended_hypertrie_authe.Amt.Tree.{AmtConfig, AmTree, add_to_node, update}
use extended_hypertrie_authe.Amt.Tree.Maintain.{
  on_path, maintain_nodes-shown, shown, changed, Readable,
}

-- The node lies on the path of the leaf of `index`, below the root, and the shard maintains it.
abbrev pub is_updated : ℕ → NodeIndex → NodeIndex → Bool
is_updated index shard_root j =
    ltb 0 j.depth && (bitreverse index j.depth == j.index && maintained j shard_root)

on_path-is_updated :
    (depths index : ℕ) (shard_root j : NodeIndex)
    → j.depth ≤ depths
    → on_path depths (bitreverse index depths) shard_root 0 depths j ≡ is_updated index shard_root j
unfolding on_path
on_path-is_updated depths index shard_root j h =
    let from : leb 0 (depths - j.depth) ≡ true = ground arith in
    let to : ltb (depths - j.depth) (0 + depths) ≡ ltb 0 j.depth = ground arith in
    let back : depths - (depths - j.depth) ≡ j.depth = omega arith in
    let path = shr-bitreverse index depths (depths - j.depth) (omega arith) in
    rw (from, to, path, back)

module _ (c : Curve) (cfg : AmtConfig c) (db : KeyValueDb) (pp : AmtParams c)
    (w : World db.State) where
  module _ (t : AmTree c cfg) (shard_root : NodeIndex) (index update_fr_int : ℕ)
      (old inc_comm : c.G) (proofs : ℕ → c.G) where
    abbrev leaf_index : ℕ
    leaf_index = bitreverse index cfg.depths

    abbrev pub node_at : AmTree c cfg → NodeIndex → Option (AmtNode c)
    node_at s j =
        shown c cfg db pp w leaf_index shard_root index update_fr_int inc_comm proofs s.inner_nodes
          j

    abbrev pub NodesReadable : Type 0
    NodesReadable =
        Readable c cfg db pp w leaf_index shard_root index update_fr_int inc_comm proofs
          t.inner_nodes

    -- `update` with a value that is not 0 at an index of the tree, on a tree with a shard and a
    -- commitment whose nodes all decode, under parameters that have the index's entries: the
    -- increment is added to the commitment; of the nodes it is added to exactly those on the path
    -- of the index that the shard maintains, each with the quotient's multiple of its depth.
    pub update-node :
        (j : NodeIndex)
        → index < 2 ^ cfg.depths
        → (update_fr_int == 0) ≡ false
        → t.shard_root ≡ some shard_root
        → t.commitment ≡ some old
        → get_idents_pow c pp index update_fr_int ≡ some inc_comm
        → ((depth : ℕ)
            → 1 ≤ depth
            → depth ≤ cfg.depths
            → get_quotient_pow c pp depth index update_fr_int ≡ some (proofs depth))
        → NodesReadable
        → IsNode cfg.depths j
        → ((do t' ← update c cfg db pp t w index update_fr_int; t'.commitment)
            ≡ some (c.add old inc_comm))
          × ((do t' ← update c cfg db pp t w index update_fr_int; node_at t' j) ≡ (do
            n ← node_at t j
            some (
                if is_updated index shard_root j
                then add_to_node c cfg db pp inc_comm (proofs j.depth) n
                else n)))
    unfolding update
    update-node j inside some_value shard comm ident quotients readable v =
        let legal : ltb index (shl 1 cfg.depths) ≡ true = ground arith in
        let node =
          new_index-eq cfg.depths cfg.depths leaf_index (bitreverse-lt index cfg.depths)
            (omega arith) in
        let (b, ran, seen) =
          maintain_nodes-shown c cfg db pp w leaf_index shard_root index update_fr_int inc_comm
            proofs t.inner_nodes 0 cfg.depths (bitreverse-lt index cfg.depths) (omega arith)
            quotients readable in
        let hit = on_path-is_updated cfg.depths index shard_root j v.low in
        let (n, h) = readable j v in
        rw (legal, some_value, ident, comm, shard, node, ran)
          (
            refl,
            seen j v.low
                ∙ ap
                    (λ b.
                      changed c cfg db pp w leaf_index shard_root index update_fr_int inc_comm
                        proofs b j (node_at t j))
                    hit
                ∙ rw h (either n (is_updated index shard_root j)),
          )
      where
        either :
            (n : AmtNode c) (hit : Bool)
            → changed c cfg db pp w leaf_index shard_root index update_fr_int inc_comm proofs hit j
                (some n)
              ≡ some (if hit then add_to_node c cfg db pp inc_comm (proofs j.depth) n else n)
        either n true = refl
        either n false = refl
