-- ===== src/LvmtDb/Proofs.antt =====
-- lvmt_db.rs: the proof of a key's value, and its verification.
use extended_hypertrie_authe.Prelude.{
  ℕ, zero, suc, ◌+◌, ◌-◌, List, [], ◌∷◌, Option, none, some, Bool, true, false, not, ◌==◌, length,
  get_elem?, if◌then◌else◌,
}
use extended_hypertrie_authe.Prelude.Options.{◌>>=◌}
use extended_hypertrie_authe.Serde.{Bytes}
use extended_hypertrie_authe.Storage.Backend.{KeyValueDb}
use extended_hypertrie_authe.Storage.Access.{World}
use extended_hypertrie_authe.Merkle.Hashing.{HashLib}
use extended_hypertrie_authe.Merkle.{MerkleProof, new, prove, verify}
use extended_hypertrie_authe.Amt.Params.{Curve, AmtParams}
use extended_hypertrie_authe.Amt.Node.{AmtNode}
use extended_hypertrie_authe.Amt.Tree.{get_data, prove_tree}
use extended_hypertrie_authe.Amt.Pairing.{Pairing, VerifyKeys, verify_proof}
use extended_hypertrie_authe.MultiLayer.Key.{Key, tree_at_level, index_at_level}
use extended_hypertrie_authe.MultiLayer.TreeName.{TreeName}
use extended_hypertrie_authe.MultiLayer.Node.{Node, EpochPosition, as_fr_int, versions_from_fr_int}
use extended_hypertrie_authe.MultiLayer.Config.{forest_config}
use extended_hypertrie_authe.MultiLayer.VersionTree.{VerInfo, VersionTree}
use extended_hypertrie_authe.MultiLayer.VersionTree.Visit.{with_tree}
use extended_hypertrie_authe.LvmtDb.{LvmtDb, stored_value, consensus, col_merkle}
use extended_hypertrie_authe.LvmtDb.Values.{write_key_value, write_tree_value}

-- `struct AssociateProof`
pub record AssociateProof : Type 0 where
  pub value : Option Bytes
  pub ver_info : VerInfo

module _ (c : Curve) (depths : ℕ) (db : KeyValueDb) (lib : HashLib) where
  pub record LevelProof : Type 0 where
    pub merkle_epoch : ℕ
    pub merkle_proof : MerkleProof lib
    pub amt_proof : List (AmtNode c)
    pub commitment : c.G
    pub node_fr_int : ℕ
    pub node_version : ℕ

  unfoldable pub prove_merkle : World db.State → EpochPosition → Option (ℕ × MerkleProof lib)
  prove_merkle w epoch_pos = do
    tree ← new db lib col_merkle w epoch_pos.epoch
    (merkle_proof, _) ← prove db lib tree w epoch_pos.position
    some (epoch_pos.epoch, merkle_proof)

  unfoldable pub prove_amt_node :
      VersionTree c depths
      → World db.State
      → TreeName
      → ℕ
      → Option ((c.G × (Node × List (AmtNode c))) × VersionTree c depths)
  prove_amt_node vt w name index = with_tree c depths db vt w name (λ t. do
    commitment ← t.commitment
    (value, t1) ← get_data c (forest_config c depths) db t w index
    (proof, t2) ← prove_tree c (forest_config c depths) db t1 w index
    amt_proof ← proof
    some ((commitment, (value, amt_proof)), t2))

  -- The proof of one level: `version_of` is the version of the node that is shown.
  unfoldable pub prove_level :
      VersionTree c depths
      → World db.State
      → Key
      → ℕ
      → EpochPosition
      → (Node → Option ℕ)
      → Option (LevelProof × VersionTree c depths)
  unfolding prove_merkle prove_amt_node
  prove_level vt w key level position version_of = do
    (merkle_epoch, merkle_proof) ← prove_merkle w position
    path ← tree_at_level depths key level
    index ← index_at_level depths key level
    ((commitment, (node, amt_proof)), vt') ← prove_amt_node vt w (record { path = path }) index
    node_fr_int ← as_fr_int node
    node_version ← version_of node
    some (
      record {
        merkle_epoch = merkle_epoch;
        merkle_proof = merkle_proof;
        amt_proof = amt_proof;
        commitment = commitment;
        node_fr_int = node_fr_int;
        node_version = node_version;
      },
      vt',
    )

  -- `for level in (0..ver_info.level).rev()`; each proof is put in front.
  unfoldable pub prove_upper_levels :
      VersionTree c depths
      → World db.State
      → Key
      → ℕ
      → List LevelProof
      → Option (List LevelProof × VersionTree c depths)
  unfolding prove_level
  prove_upper_levels vt w key zero level_proofs = some (level_proofs, vt)
  prove_upper_levels vt w key (suc level) level_proofs = do
    path ← tree_at_level depths key level
    index ← index_at_level depths key level
    (position, vt1) ←
        with_tree c depths db vt w (record { path = path })
          (λ t. do
            (node, t') ← get_data c (forest_config c depths) db t w index
            some (node.tree_position, t'))
    (level_proof, vt2) ← prove_level vt1 w key level position (λ node. some node.tree_version)
    prove_upper_levels vt2 w key level (level_proof ∷ level_proofs)

  unfoldable pub prove_key :
      LvmtDb c depths
      → World db.State
      → Key
      → Option ((AssociateProof × List LevelProof) × LvmtDb c depths)
  unfolding prove_upper_levels prove_level
  prove_key d w key = do
    stored ← stored_value c depths db w key
    value ← stored
    let ver_info = value.version
    (bottom, vt1) ←
        prove_level d.version_tree w key ver_info.level value.position
          (λ node. get_elem? node.key_versions.versions ver_info.slot_index)
    (level_proofs, vt2) ← prove_upper_levels vt1 w key ver_info.level (bottom ∷ [])
    some (
      (record { value = some value.value; ver_info = ver_info }, level_proofs),
      record d { version_tree = vt2 },
    )

  module _ (e : Pairing c) (pp : AmtParams c) (keys : VerifyKeys c e)
      (epoch_root : ℕ → lib.H256) where
    -- The AMT proofs of the levels.
    unfoldable pub verify_amt : Key → ℕ → List LevelProof → Option Bool
    verify_amt key level [] = some true
    verify_amt key level (p ∷ proofs) = do
      index ← index_at_level depths key level
      verified ← verify_proof c e depths pp keys index p.node_fr_int p.commitment p.amt_proof
      let rest = verify_amt key (suc level) proofs
      if not verified then some false else rest

    -- The Merkle proofs of the trees below the top one.
    unfoldable pub verify_trees : Key → ℕ → List LevelProof → Option Bool
    verify_trees key level [] = some true
    verify_trees key level (p ∷ []) = some true
    verify_trees key level (p ∷ q ∷ proofs) = do
      path ← tree_at_level depths key (level + 1)
      let hash = lib.keccak (
          write_tree_value c
            (record {
              key = record { path = path };
              version_number = p.node_version;
              commitment = q.commitment;
            })
            consensus)
      let rest = verify_trees key (suc level) (q ∷ proofs)
      if not (verify lib (epoch_root p.merkle_epoch) hash p.merkle_proof) then some false else rest

    -- The versions of the levels above the bottom one.
    unfoldable pub verify_versions : List LevelProof → Option Bool
    verify_versions [] = some true
    verify_versions (p ∷ []) = some true
    verify_versions (p ∷ q ∷ proofs) = do
      version ← versions_from_fr_int p.node_fr_int 0
      let rest = verify_versions (q ∷ proofs)
      if not (version == p.node_version) then some false else rest

    -- `verify`: true is `Ok(())`. A proof without levels is a panic.
    unfoldable pub verify_key : Key → AssociateProof × List LevelProof → Option Bool
    unfolding verify_amt verify_trees verify_versions
    verify_key key (assoc_proof, level_proofs) = do
      amt ← verify_amt key 0 level_proofs
      if not amt then some false else (do
        bottom ← get_elem? level_proofs (length level_proofs - 1)
        let merkle : Bool = elim assoc_proof.value [
          | none ↦ true
          | some value ↦
              verify lib (epoch_root bottom.merkle_epoch)
                (lib.keccak (
                  write_key_value
                    (record { key = key.bytes; version = assoc_proof.ver_info; value = value })
                    consensus))
                bottom.merkle_proof
        ]
        if not merkle then some false else (do
          trees ← verify_trees key 0 level_proofs
          if not trees then some false else (do
            version ← versions_from_fr_int bottom.node_fr_int (assoc_proof.ver_info.slot_index + 1)
            if not (version == bottom.node_version)
                then some false
                else verify_versions level_proofs)))
