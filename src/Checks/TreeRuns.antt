-- ===== src/Checks/TreeRuns.antt =====
-- A tree of four leaves over the numbers.
use extended_hypertrie_authe.Prelude.{
  sym, ◌∙◌, nat_eq, ap, ℕ, zero, suc, ◌≤◌, ◌+◌, ◌*◌, [], ◌∷◌, none, some, false, ◌≡◌, refl, arith,
  if◌then◌else◌, get_or, subst, ◌==◌,
}
use extended_hypertrie_authe.Prelude.Maps.{lookup}
use extended_hypertrie_authe.Prelude.Options.{◌>>=◌}
use extended_hypertrie_authe.Serde.Uint.{u64_serde}
use extended_hypertrie_authe.Storage.Backend.{column_get}
use extended_hypertrie_authe.Storage.Access.{load, decode, new}
use extended_hypertrie_authe.Storage.Access.View.{view}
use extended_hypertrie_authe.Amt.NodeIndex.{NodeIndex}
use extended_hypertrie_authe.Amt.Bitreverse.{bitreverse}
use extended_hypertrie_authe.Amt.Params.{Curve, AmtParams, get_idents_pow, get_quotient_pow}
use extended_hypertrie_authe.Amt.Tree.{
  AmtConfig, AmTree, drop_guard, update, add_to_node, drop_guard,
}
use extended_hypertrie_authe.Amt.Tree.Update.{node_at, NodesReadable, is_updated, update-node}
use extended_hypertrie_authe.Amt.Tree.Guard.{data_at, drop_guard-commitment}
use extended_hypertrie_authe.Amt.Node.{AmtNode}
use extended_hypertrie_authe.Amt.Pairing.{Pairing, VerifyKeys}
use extended_hypertrie_authe.Amt.Pairing.Invariant.{IsSetup, Opens, update-Opens}
use extended_hypertrie_authe.Checks.Toy.{log_db, empty_world, column_two}

abbrev pub plain : Curve
plain = record {
  G = ℕ;
  zero_point = 0;
  add = λ g h. g + h;
  mul = λ g n. g * n;
  serde = u64_serde;
  add_comm = λ g h. omega arith;
  add_assoc = λ g h k. omega arith;
  zero-add = λ g. omega arith;
  mul-zero = λ g. omega arith;
  mul-add = λ g m n. omega arith;
}

abbrev four : AmtConfig plain
four = record {
  Name = ℕ;
  name_serde = u64_serde;
  Data = ℕ;
  data_serde = u64_serde;
  default_data = 0;
  as_fr_int = λ n. some n;
  depths = 2;
}

abbrev keys : AmtParams plain
keys = record {
  commitments = 2 ∷ 3 ∷ 5 ∷ 7 ∷ [];
  quotients = (11 ∷ 13 ∷ 17 ∷ 19 ∷ []) ∷ (23 ∷ 29 ∷ 31 ∷ 37 ∷ []) ∷ [];
}

abbrev top : NodeIndex
top = record { depth = 0; index = 0 }

abbrev proof_tree : AmTree plain four
proof_tree = record {
  name = 6;
  data_entries = new [] column_two;
  subtree_roots = new [] column_two;
  inner_nodes = new [] column_two;
  commitment = some 100;
  dirty = false;
  shard_root = some top;
}

abbrev plain_tree : AmTree plain four
plain_tree = record proof_tree { shard_root = none }

abbrev multiples : ℕ → ℕ
multiples zero = 0
multiples (suc zero) = 65
multiples (suc (suc n)) = 145

multiples-eq :
    (depth : ℕ)
    → 1 ≤ depth
    → depth ≤ 2
    → get_quotient_pow plain keys depth 1 5 ≡ some (multiples depth)
unfolding get_quotient_pow
multiples-eq zero h g = elim h [ ]
multiples-eq (suc zero) h g = refl
multiples-eq (suc (suc zero)) h g = refl
multiples-eq (suc (suc (suc n))) h g = absurd (omega arith)

ident : get_idents_pow plain keys 1 5 ≡ some 15
unfolding get_idents_pow
ident = refl

readable : NodesReadable plain four log_db keys empty_world proof_tree top 1 5 100 15 multiples
unfolding view load decode column_get new lookup
readable j v = (record { commitment = 0; proof = 0 }, refl)

abbrev child : NodeIndex
child = record { depth = 1; index = 1 }

update-node_example :
    ((update plain four log_db keys proof_tree empty_world 1 5 >>= λ t. t.commitment) ≡ some 115)
    × ((update plain four log_db keys proof_tree empty_world 1 5 >>= λ t.
          node_at plain four log_db keys empty_world proof_tree top 1 5 100 15 multiples t child)
        ≡ (node_at plain four log_db keys empty_world proof_tree top 1 5 100 15 multiples proof_tree
              child
            >>= λ n.
                some (
                  if is_updated 1 top child
                  then add_to_node plain four log_db keys 15 65 n
                  else n)))
update-node_example =
    update-node plain four log_db keys empty_world proof_tree top 1 5 100 15 multiples child
      (omega arith) refl refl refl ident multiples-eq readable
      (record { inside = omega arith; low = omega arith })

-- The pairing is the product, the first element of the second group is 3, and every node has its
-- own key. The quotient of an index at a depth is the product of the index's point and 3, divided
-- by the key of the node above the index.
abbrev product : Pairing plain
product = record {
  G2 = ℕ;
  Gt = ℕ;
  combine = λ a b. a + b;
  pairing = λ g k. g * k;
  equal_point = nat_eq;
  equal_target = nat_eq;
  pairing-add = λ g h k. omega arith;
}

abbrev key_of : ℕ → ℕ → ℕ
key_of depth index =
    get_or (get_or ([] ∷ (6 ∷ 9 ∷ []) ∷ (15 ∷ 21 ∷ 33 ∷ 39 ∷ []) ∷ []) depth []) index 0

abbrev node_key : NodeIndex → ℕ
node_key j = key_of j.depth j.index

abbrev verify_keys : VerifyKeys plain product
verify_keys = record { verification = (9 ∷ 6 ∷ []) ∷ (33 ∷ 39 ∷ 15 ∷ 21 ∷ []) ∷ []; g2 = 3 }

abbrev setup_keys : AmtParams plain
setup_keys = record {
  commitments = 10 ∷ 33 ∷ 14 ∷ 39 ∷ [];
  quotients = (5 ∷ 11 ∷ 7 ∷ 13 ∷ []) ∷ (2 ∷ 3 ∷ 2 ∷ 3 ∷ []) ∷ [];
}

quotients_of_one : ℕ → ℕ
quotients_of_one depth = if depth == 1 then 55 else 15

ident_setup : get_idents_pow plain setup_keys 1 5 ≡ some 165
unfolding get_idents_pow
ident_setup = refl

quotient_setup :
    (depth : ℕ)
    → 1 ≤ depth
    → depth ≤ 2
    → get_quotient_pow plain setup_keys depth 1 5 ≡ some (quotients_of_one depth)
unfolding get_quotient_pow quotients_of_one
quotient_setup zero h g = elim h [ ]
quotient_setup (suc zero) h g = refl
quotient_setup (suc (suc zero)) h g = refl
quotient_setup (suc (suc (suc n))) h g = absurd (omega arith)

swap : (a b c : ℕ) → (a * b) * c ≡ (a * c) * b
swap a b c = omega arith

-- A point and its quotient under the key of a node.
quotient_opens :
    (depth index above g q power a b : ℕ)
    → index ≡ above
    → some (g * power) ≡ some a
    → some (q * power) ≡ some b
    → g * 3 ≡ q * key_of depth index
    → a * 3 ≡ b * key_of depth above
quotient_opens depth index above g q power a b path p r e =
    let value : g * power ≡ a = ap (λ o. elim o [ none ↦ 0 | some x ↦ x ]) p in
    let quotient : q * power ≡ b = ap (λ o. elim o [ none ↦ 0 | some x ↦ x ]) r in
    let k = key_of depth index in
    subst (λ n. a * 3 ≡ b * key_of depth n) path
      (rw (sym value, sym quotient) (swap g power 3 ∙ ap (λ n. n * power) e ∙ sym (swap q power k)))

setup_opens :
    (depth index above power a b : ℕ)
    → 1 ≤ depth
    → depth ≤ 2
    → bitreverse index depth ≡ above
    → get_idents_pow plain setup_keys index power ≡ some a
    → get_quotient_pow plain setup_keys depth index power ≡ some b
    → a * 3 ≡ b * key_of depth above
unfolding get_idents_pow get_quotient_pow bitreverse
setup_opens zero index above power a b one le path p q = elim one [ ]
setup_opens (suc zero) zero above power a b one le path p q =
    quotient_opens 1 0 above 10 5 power a b path p q refl
setup_opens (suc zero) (suc zero) above power a b one le path p q =
    quotient_opens 1 1 above 33 11 power a b path p q refl
setup_opens (suc zero) (suc (suc zero)) above power a b one le path p q =
    quotient_opens 1 0 above 14 7 power a b path p q refl
setup_opens (suc zero) (suc (suc (suc zero))) above power a b one le path p q =
    quotient_opens 1 1 above 39 13 power a b path p q refl
setup_opens (suc (suc zero)) zero above power a b one le path p q =
    quotient_opens 2 0 above 10 2 power a b path p q refl
setup_opens (suc (suc zero)) (suc zero) above power a b one le path p q =
    quotient_opens 2 2 above 33 3 power a b path p q refl
setup_opens (suc (suc zero)) (suc (suc zero)) above power a b one le path p q =
    quotient_opens 2 1 above 14 2 power a b path p q refl
setup_opens (suc (suc zero)) (suc (suc (suc zero))) above power a b one le path p q =
    quotient_opens 2 3 above 39 3 power a b path p q refl
setup_opens (suc (suc zero)) (suc (suc (suc (suc index)))) above power a b one le path p q = cc
setup_opens (suc zero) (suc (suc (suc (suc index)))) above power a b one le path p q = cc
setup_opens (suc (suc (suc n))) index above power a b one le path p q = absurd (omega (arith, le))

setup_keys-IsSetup : IsSetup plain product verify_keys node_key setup_keys 2
setup_keys-IsSetup j index power a b v deep path p q =
    setup_opens j.depth index j.index power a b deep v.low path p q

setup_readable :
    NodesReadable plain four log_db setup_keys empty_world proof_tree top 1 5 100 165
      quotients_of_one
unfolding view load decode column_get new lookup
setup_readable j v = (record { commitment = 0; proof = 0 }, refl)

abbrev zero_node : AmtNode plain
zero_node = record { commitment = 0; proof = 0 }

child_here :
    node_at plain four log_db setup_keys empty_world proof_tree top 1 5 100 165 quotients_of_one
      proof_tree child
    ≡ some zero_node
unfolding view load decode column_get new lookup
child_here = refl

-- The node of the second half, which the update changes.
update-Opens_example :
    (m : AmtNode plain) × ((update plain four log_db setup_keys proof_tree empty_world 1 5 >>= λ t.
    node_at plain four log_db setup_keys empty_world proof_tree top 1 5 100 165 quotients_of_one t
      child)
      ≡ some m)
    × Opens plain product verify_keys node_key child m
update-Opens_example =
    update-Opens plain product verify_keys node_key four log_db setup_keys empty_world proof_tree
      top 1 5 100 165 quotients_of_one child zero_node setup_keys-IsSetup (omega arith) refl refl
      refl ident_setup quotient_setup setup_readable
      (record { inside = omega arith; low = omega arith }) child_here refl

-- The guard of the third entry, which was 2 and becomes 6.
abbrev guarded_tree : AmTree plain four
guarded_tree = record plain_tree { commitment = some (100 + 5 * 2) }

guarded_here : data_at plain four log_db keys empty_world guarded_tree 2 ≡ some 0
unfolding view load decode column_get new lookup
guarded_here = refl

drop_guard-commitment_example :
    ((drop_guard plain four log_db keys 1 guarded_tree empty_world 2 2 6 >>= λ t. t.commitment)
      ≡ some (100 + 5 * 6))
    × ((drop_guard plain four log_db keys 1 guarded_tree empty_world 2 2 6 >>= λ t.
          data_at plain four log_db keys empty_world t 2)
        ≡ some 6)
drop_guard-commitment_example =
    drop_guard-commitment plain four log_db keys empty_world 1 guarded_tree 2 0 2 6 2 6 5 100
      (omega arith) refl guarded_here refl refl (omega arith) refl refl
