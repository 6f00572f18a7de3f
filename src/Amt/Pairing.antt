-- ===== src/Amt/Pairing.antt =====
-- amt/tree.rs: `AMTree::verify`, with the keys of crypto/prove_params.rs. The pairing (arkworks) is
-- a parameter.
pub mod Invariant
use Prim.Native.Nat.{bit_and, bit_xor}
use extended_hypertrie_authe.Prelude.{
  ℕ, zero, suc, ◌+◌, ◌-◌, ◌^◌, List, [], ◌∷◌, Option, none, some, Bool, true, false, not, ltb, shl,
  if◌then◌else◌, ◌≡◌, get_elem?, Eq,
}
use extended_hypertrie_authe.Prelude.Options.{◌>>=◌}
use extended_hypertrie_authe.Amt.Params.{Curve, AmtParams, at_depth}
use extended_hypertrie_authe.Amt.Node.{AmtNode}

-- `PairingEngine`: the second group, the target group, and a pairing that is additive in its first
-- argument.
pub record Pairing (c : Curve) : Type 1 where
  pub G2 : Type 0
  pub Gt : Type 0
  pub combine : Gt → Gt → Gt
  pub pairing : c.G → G2 → Gt
  pub equal_point : Eq c.G
  pub equal_target : Eq Gt
  pub pairing-add :
      (g h : c.G) (k : G2) → pairing (c.add g h) k ≡ combine (pairing g k) (pairing h k)

module _ (c : Curve) (e : Pairing c) where
  -- The fields `verification` and `g2` of `AMTParams`.
  pub record VerifyKeys : Type 0 where
    pub verification : List (List e.G2)
    pub g2 : e.G2

  unfoldable pub get_sibling_verification : VerifyKeys → ℕ → ℕ → Option e.G2
  get_sibling_verification keys depth index = do
    let low = bit_and index (shl 1 depth - 1)
    row ← at_depth keys.verification depth
    get_elem? row (bit_xor low (shl 1 (depth - 1)))

  -- `proof.iter().map(|node| node.commitment).sum()`
  unfoldable pub sum_of_commitments : List (AmtNode c) → c.G → c.G
  sum_of_commitments [] sum = sum
  sum_of_commitments (node ∷ proof) sum = sum_of_commitments proof (c.add sum node.commitment)

  -- The pairing checks, from a position of the proof on.
  unfoldable pub check_nodes : VerifyKeys → ℕ → ℕ → List (AmtNode c) → Option Bool
  check_nodes keys index idx [] = some true
  check_nodes keys index idx (node ∷ proof) = do
    verification ← get_sibling_verification keys (idx + 1) index
    let rest = check_nodes keys index (suc idx) proof
    if not (
          e.equal_target.beq (e.pairing node.commitment keys.g2)
            (e.pairing node.proof verification))
        then some false
        else rest

  unfoldable pub verify_proof :
      ℕ → AmtParams c → VerifyKeys → ℕ → ℕ → c.G → List (AmtNode c) → Option Bool
  unfolding sum_of_commitments check_nodes
  verify_proof depths pp keys index value commitment proof =
      if not (ltb index (shl 1 depths)) then none else (do
        point ← get_elem? pp.commitments index
        let others = sum_of_commitments proof c.zero_point
        let checks = check_nodes keys index 0 proof
        if not (e.equal_point.beq commitment (c.add (c.mul point value) others))
            then some false
            else checks)
