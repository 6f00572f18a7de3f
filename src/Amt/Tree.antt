-- ===== src/Amt/Tree.antt =====
-- amt/tree.rs and amt/write_guard.rs: an authenticated multipoint evaluation tree. `none` is a
-- panic. The references that the source returns are the values they point to, and a write
-- through a reference is a function on the value.
pub mod Maintain
pub mod Update
pub mod Guard
use extended_hypertrie_authe.Prelude.{
  ℕ, zero, suc, ◌+◌, ◌-◌, ◌*◌, ◌^◌, List, [], ◌∷◌, ◌++◌, Option, none, some, Bool, true, false, ltb,
  leb, shl, ◌==◌, if◌then◌else◌, Eq, nat_eq, replicate, set, not, ◌%◌,
}
use extended_hypertrie_authe.Prelude.Options.{◌>>=◌}
use extended_hypertrie_authe.Serde.{Bytes, SerdeType, Serde, to_bytes_consensus}
use extended_hypertrie_authe.Storage.Backend.{KeyValueDb, DbColumn}
use extended_hypertrie_authe.Storage.Layout.{Layout, flatten_array}
use extended_hypertrie_authe.Storage.Access.{
  DbAccess, World, new as new_access, get as get_entry, get_mut as get_mut_entry, flush_cache,
}
use extended_hypertrie_authe.Amt.NodeIndex.{
  NodeIndex, node_eq, node_beq, new_index, root, to_sibling, to_ancestor, needs_maintain,
}
use extended_hypertrie_authe.Amt.Bitreverse.{bitreverse}
use extended_hypertrie_authe.Amt.Layout.{flatten_tree}
use extended_hypertrie_authe.Amt.Node.{AmtNode, node_serde}
use extended_hypertrie_authe.Amt.Params.{Curve, AmtParams, get_idents_pow, get_quotient_pow}

-- `trait AMTConfigTrait`, with the layouts that its one implementation has, and `AMTData`.
pub record AmtConfig (c : Curve) : Type 1 where
  pub Name : Type 0
  pub name_serde : Serde Name
  pub Data : Type 0
  pub data_serde : Serde Data
  pub default_data : Data
  pub as_fr_int : Data → Option ℕ
  pub depths : ℕ

module _ (c : Curve) (cfg : AmtConfig c) where
  -- `struct AMTree`, less the parameters `pp`.
  pub record AmTree : Type 0 where
    pub name : cfg.Name
    pub data_entries : DbAccess ℕ cfg.Data
    pub subtree_roots : DbAccess ℕ c.G
    pub inner_nodes : DbAccess NodeIndex (AmtNode c)
    pub commitment : Option c.G
    pub dirty : Bool
    pub shard_root : Option NodeIndex

  -- `AMTree::new`
  unfoldable pub new_tree : cfg.Name → DbColumn → Option NodeIndex → AmTree
  new_tree name db shard_root =
      let ser_name = to_bytes_consensus cfg.name_serde name in
      record {
        name = name;
        data_entries = new_access (1 ∷ ser_name) db;
        subtree_roots = new_access (3 ∷ ser_name) db;
        inner_nodes = new_access (2 ∷ ser_name) db;
        commitment = none;
        dirty = false;
        shard_root = shard_root;
      }

  unfoldable pub set_commitment : AmTree → c.G → AmTree
  set_commitment t commitment = elim t.commitment [
    | none ↦ record t { commitment = some commitment }
    | some _ ↦ t
  ]

  unfoldable pub only_root : AmTree → Bool
  only_root t = elim t.shard_root [ none ↦ true | some _ ↦ false ]

  unfoldable pub can_prove : AmTree → Bool
  can_prove t = elim t.shard_root [
    | none ↦ false
    | some shard_root ↦ elim (root cfg.depths) [ none ↦ false | some top ↦ node_beq shard_root top ]
  ]

  module _ (db : KeyValueDb) where
    abbrev pub default_node : AmtNode c
    default_node = record { commitment = c.zero_point; proof = c.zero_point }

    unfoldable pub get_data : AmTree → World db.State → ℕ → Option (cfg.Data × AmTree)
    get_data t w index =
        if ltb index (shl 1 cfg.depths)
        then (do
          (value, entries) ←
              get_entry db cfg.data_serde flatten_array cfg.default_data t.data_entries w index
          some (value, record t { data_entries = entries }))
        else none

    -- `get_mut`, with what is written.
    unfoldable pub set_data : AmTree → World db.State → ℕ → (cfg.Data → cfg.Data) → Option AmTree
    set_data t w index write =
        if ltb index (shl 1 cfg.depths)
        then (do
          entries ←
              get_mut_entry db cfg.data_serde flatten_array cfg.default_data t.data_entries w index
                write
          some (record t { data_entries = entries }))
        else none

    -- `write_versions`: the value that the guard takes; the default is left in its place.
    unfoldable pub write_versions : AmTree → World db.State → ℕ → Option (cfg.Data × AmTree)
    write_versions t w index = do
      (value, _) ← get_entry db cfg.data_serde flatten_array cfg.default_data t.data_entries w index
      entries ←
          get_mut_entry db cfg.data_serde flatten_array cfg.default_data t.data_entries w index
            (λ _. cfg.default_data)
      some (value, record t { data_entries = entries })

    -- `subtree_root_mut`, with what is written.
    unfoldable pub subtree_root_mut : AmTree → World db.State → ℕ → (c.G → c.G) → Option AmTree
    subtree_root_mut t w index write =
        if ltb index (shl 1 cfg.depths)
        then (do
          roots ← get_mut_entry db c.serde flatten_array c.zero_point t.subtree_roots w index write
          some (record t { subtree_roots = roots }))
        else none

    unfoldable pub flush : AmTree → World db.State → Option ((c.G × AmTree) × World db.State)
    flush t w =
        let (entries, w1) =
          flush_cache db cfg.data_serde flatten_array cfg.default_data t.data_entries
            (record w { put_mode = 0 }) in
        let (nodes, w2) =
          flush_cache db (node_serde c) flatten_tree default_node t.inner_nodes
            (record w1 { put_mode = 1 }) in
        let (roots, w3) =
          flush_cache db c.serde flatten_array c.zero_point t.subtree_roots
            (record w2 { put_mode = 2 }) in
        (do
          commitment ← t.commitment
          some (
            (
              commitment,
              record t {
                data_entries = entries;
                inner_nodes = nodes;
                subtree_roots = roots;
                dirty = false;
              },
            ),
            w3,
          ))

    module _ (pp : AmtParams c) where
      -- What is added at a node that is maintained.
      unfoldable pub add_to_node : c.G → c.G → AmtNode c → AmtNode c
      add_to_node inc_comm proof node = record {
        commitment = c.add node.commitment inc_comm;
        proof = c.add node.proof proof;
      }

      -- The body of the loop, at one height.
      unfoldable pub maintain_node :
          DbAccess NodeIndex (AmtNode c)
          → World db.State
          → NodeIndex
          → NodeIndex
          → ℕ
          → ℕ
          → c.G
          → ℕ
          → Option (DbAccess NodeIndex (AmtNode c))
      unfolding add_to_node
      maintain_node a w node_index shard_root index update_fr_int inc_comm height = do
        visit_node_index ← to_ancestor cfg.depths node_index height
        maintained ← needs_maintain cfg.depths visit_node_index shard_root
        if not maintained then some a else (do
          proof ← get_quotient_pow c pp (cfg.depths - height) index update_fr_int
          get_mut_entry db (node_serde c) flatten_tree default_node a w visit_node_index
              (add_to_node inc_comm proof))

      -- The loop, from a height on.
      unfoldable pub maintain_nodes :
          DbAccess NodeIndex (AmtNode c)
          → World db.State
          → NodeIndex
          → NodeIndex
          → ℕ
          → ℕ
          → c.G
          → ℕ
          → ℕ
          → Option (DbAccess NodeIndex (AmtNode c))
      unfolding maintain_node
      maintain_nodes a w node_index shard_root index update_fr_int inc_comm height zero = some a
      maintain_nodes a w node_index shard_root index update_fr_int inc_comm height (suc count) = do
        a' ← maintain_node a w node_index shard_root index update_fr_int inc_comm height
        maintain_nodes a' w node_index shard_root index update_fr_int inc_comm (suc height) count

      unfoldable pub update : AmTree → World db.State → ℕ → ℕ → Option AmTree
      unfolding maintain_nodes
      update t w index update_fr_int =
          if not (ltb index (shl 1 cfg.depths))
          then none
          else if update_fr_int == 0
          then some t
          else (do
            inc_comm ← get_idents_pow c pp index update_fr_int
            commitment ← t.commitment
            let t' = record t { dirty = true; commitment = some (c.add commitment inc_comm) }
            elim t.shard_root [
              | none ↦ some t'
              | some shard_root ↦ (do
                let leaf_index = bitreverse index cfg.depths
                node_index ← new_index cfg.depths cfg.depths leaf_index
                nodes ←
                    maintain_nodes t.inner_nodes w node_index shard_root index update_fr_int
                      inc_comm 0 cfg.depths
                some (record t' { inner_nodes = nodes }))
            ])

      -- `drop` of a write guard whose value was `old` when it was made; `r` is the constant of the
      -- field that is added on a borrow.
      unfoldable pub drop_guard :
          ℕ → AmTree → World db.State → ℕ → cfg.Data → cfg.Data → Option AmTree
      unfolding set_data update
      drop_guard r t w index old value = do
        old_fr_int ← cfg.as_fr_int old
        new_fr_int ← cfg.as_fr_int value
        let fr_int =
            if ltb new_fr_int old_fr_int
            then (new_fr_int + 2 ^ 256 - old_fr_int + r) % 2 ^ 256
            else new_fr_int - old_fr_int
        t' ← set_data t w index (λ _. value)
        update t' w index fr_int

    -- The loop of `prove`, for the depths from `count` down to 1: the siblings are read.
    unfoldable pub prove_nodes :
        DbAccess NodeIndex (AmtNode c)
        → World db.State
        → NodeIndex
        → ℕ
        → List (AmtNode c)
        → Option (List (AmtNode c) × DbAccess NodeIndex (AmtNode c))
    prove_nodes a w node_index zero answers = some (answers, a)
    prove_nodes a w node_index (suc count) answers = do
      top ← to_ancestor cfg.depths node_index (cfg.depths - suc count)
      sibling ← to_sibling cfg.depths top
      (node, _) ← get_entry db (node_serde c) flatten_tree default_node a w sibling
      a' ← get_mut_entry db (node_serde c) flatten_tree default_node a w sibling (λ n. n)
      prove_nodes a' w node_index count (set answers count node)

    unfoldable pub prove_tree :
        AmTree → World db.State → ℕ → Option (Option (List (AmtNode c)) × AmTree)
    unfolding prove_nodes
    prove_tree t w index = if not (can_prove t) then some (none, t) else (do
      node_index ← new_index cfg.depths cfg.depths (bitreverse index cfg.depths)
      (answers, nodes) ←
          prove_nodes t.inner_nodes w node_index cfg.depths (replicate cfg.depths default_node)
      some (some answers, record t { inner_nodes = nodes }))
