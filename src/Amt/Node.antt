-- ===== src/Amt/Node.antt =====
-- amt/node.rs: `AMTNode`, the commitment and the proof that a tree keeps at a node. The points are
-- written by the curve, in affine form in a consensus encoding.
use extended_hypertrie_authe.Prelude.{◌++◌, Option, some, ◌≡◌}
use extended_hypertrie_authe.Prelude.Options.{◌>>=◌}
use extended_hypertrie_authe.Serde.{Bytes, SerdeType, Serde}
use extended_hypertrie_authe.Amt.Params.{Curve}
use mathlib.Core.List.{append_assoc}

module _ (c : Curve) where
  pub record AmtNode : Type 0 where
    pub commitment : c.G
    pub proof : c.G

  unfoldable pub write_node : AmtNode → SerdeType → Bytes
  write_node node ty = c.serde.write node.commitment ty ++ c.serde.write node.proof ty

  unfoldable pub read_node : Bytes → SerdeType → Option (AmtNode × Bytes)
  read_node reader ty = do
    (commitment, r) ← c.serde.read reader ty
    (proof, rest) ← c.serde.read r ty
    some (record { commitment = commitment; proof = proof }, rest)

  abbrev NodeFits : AmtNode → Type 0
  NodeFits node = c.serde.Fits node.commitment × c.serde.Fits node.proof

  -- A node is read back, in front of anything, when the curve reads back its two points.
  pub read_node-write_node :
      (node : AmtNode) (ty : SerdeType) (rest : Bytes)
      → NodeFits node
      → read_node (write_node node ty ++ rest) ty ≡ some (node, rest)
  unfolding read_node write_node
  read_node-write_node node ty rest fits =
      let tail = c.serde.write node.proof ty in
      rw (append_assoc (c.serde.write node.commitment ty) tail rest) (
        rw (c.serde.read-write node.commitment ty (tail ++ rest) fits.0)
          (rw (c.serde.read-write node.proof ty rest fits.1)))

  abbrev pub node_serde : Serde AmtNode
  node_serde = record {
    write = write_node;
    read = read_node;
    Fits = NodeFits;
    read-write = read_node-write_node;
  }
