-- ===== src/Amt/Pairing/Invariant.antt =====
-- `update` keeps every node that the shard maintains a proof of its own commitment.
use extended_hypertrie_authe.Prelude.{
  ℕ, ◌^◌, ◌≤◌, ◌<◌, some, true, false, ◌==◌, ◌≡◌, refl, ap₂, sym, ◌∙◌, arith, Bool-cases, inl, inr,
}
use extended_hypertrie_authe.Prelude.Options.{◌>>=◌}
use extended_hypertrie_authe.Storage.Backend.{KeyValueDb}
use extended_hypertrie_authe.Storage.Access.{World}
use extended_hypertrie_authe.Amt.NodeIndex.{NodeIndex}
use extended_hypertrie_authe.Amt.NodeIndex.Laws.{IsNode}
use extended_hypertrie_authe.Amt.Bitreverse.{bitreverse}
use extended_hypertrie_authe.Amt.Params.{Curve, AmtParams, get_idents_pow, get_quotient_pow}
use extended_hypertrie_authe.Amt.Node.{AmtNode}
use extended_hypertrie_authe.Amt.Tree.{AmtConfig, AmTree, add_to_node, update}
use extended_hypertrie_authe.Amt.Tree.Update.{node_at, NodesReadable, is_updated, update-node}
use extended_hypertrie_authe.Amt.Pairing.{Pairing, VerifyKeys}

module _ (c : Curve) (e : Pairing c) (keys : VerifyKeys c e) (key : NodeIndex → e.G2) where
  -- The node's proof opens its commitment under the key of its index.
  abbrev pub Opens : NodeIndex → AmtNode c → Type 0
  Opens j n = e.pairing n.commitment keys.g2 ≡ e.pairing n.proof (key j)

  -- What the setup makes of the parameters: the quotient of an index at a depth opens the index's
  -- point under the key of the node above the index at that depth, below the root.
  abbrev pub IsSetup : AmtParams c → ℕ → Type 0
  IsSetup pp depths =
      (j : NodeIndex) (index power : ℕ) (a b : c.G)
      → IsNode depths j
      → 1 ≤ j.depth
      → bitreverse index j.depth ≡ j.index
      → get_idents_pow c pp index power ≡ some a
      → get_quotient_pow c pp j.depth index power ≡ some b
      → e.pairing a keys.g2 ≡ e.pairing b (key j)

  on_path_of :
      (index : ℕ) (root j : NodeIndex)
      → is_updated index root j ≡ true
      → (1 ≤ j.depth) × (bitreverse index j.depth ≡ j.index)
  on_path_of index root j h = ground arith

  -- `update` with a value that is not 0 at an index of the tree, on a tree with a shard and a
  -- commitment whose nodes all decode, under parameters that are a setup and have the index's
  -- entries: a node whose proof opens its commitment has such a proof afterwards, whether it
  -- changes or not.
  pub update-Opens :
      (cfg : AmtConfig c) (db : KeyValueDb) (pp : AmtParams c) (w : World db.State)
      (t : AmTree c cfg) (shard_root : NodeIndex) (index update_fr_int : ℕ) (old inc_comm : c.G)
      (proofs : ℕ → c.G) (j : NodeIndex) (n : AmtNode c)
      → IsSetup pp cfg.depths
      → index < 2 ^ cfg.depths
      → (update_fr_int == 0) ≡ false
      → t.shard_root ≡ some shard_root
      → t.commitment ≡ some old
      → get_idents_pow c pp index update_fr_int ≡ some inc_comm
      → ((depth : ℕ)
          → 1 ≤ depth
          → depth ≤ cfg.depths
          → get_quotient_pow c pp depth index update_fr_int ≡ some (proofs depth))
      → NodesReadable c cfg db pp w t shard_root index update_fr_int old inc_comm proofs
      → IsNode cfg.depths j
      → node_at c cfg db pp w t shard_root index update_fr_int old inc_comm proofs t j ≡ some n
      → Opens j n
      → (m : AmtNode c) × ((do
        t' ← update c cfg db pp t w index update_fr_int
        node_at c cfg db pp w t shard_root index update_fr_int old inc_comm proofs t' j)
          ≡ some m)
        × Opens j m
  unfolding add_to_node
  update-Opens cfg db pp w t shard_root index update_fr_int old inc_comm proofs j n setup inside
        some_value shard comm ident quotients readable v here opens =
      let (_, after) =
        update-node c cfg db pp w t shard_root index update_fr_int old inc_comm proofs j inside
          some_value shard comm ident quotients readable v in
      elim (Bool-cases (is_updated index shard_root j)) [
        | inl hit ↦
            let (deep, path) = on_path_of index shard_root j hit in
            let increment =
              setup j index update_fr_int inc_comm (proofs j.depth) v deep path ident
                (quotients j.depth deep v.low) in
            (
              add_to_node c cfg db pp inc_comm (proofs j.depth) n,
              after ∙ rw (here, hit) refl,
              e.pairing-add n.commitment inc_comm keys.g2
                  ∙ ap₂ e.combine opens increment
                  ∙ sym (e.pairing-add n.proof (proofs j.depth) (key j)),
            )
        | inr kept ↦ (n, after ∙ rw (here, kept) refl, opens)
      ]
