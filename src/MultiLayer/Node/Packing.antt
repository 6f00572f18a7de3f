-- ===== src/MultiLayer/Node/Packing.antt =====
-- The versions of a node as the digits, of 40 bits, of its field element.
use extended_hypertrie_authe.Prelude.{
  ℕ, zero, suc, ◌+◌, ◌*◌, ◌/◌, ◌%◌, ◌^◌, ◌≤◌, ◌<◌, List, [], ◌∷◌, none, some, length, ◌≡◌, ap, sym,
  ◌∙◌, arith, get_or, get_elem?-get_or, set, All, pow-add, pow_mono, length-set,
}
use extended_hypertrie_authe.MultiLayer.Node.{Node, fr_int_pow_2, as_fr_int, versions_from_fr_int}
use extended_hypertrie_authe.Prelude.Options.{◌>>=◌}
use extended_hypertrie_authe.MultiLayer.VersionTree.{bump_version}
use native.Mathlib.Nat.{mod-eq_of_lt, div-div-eq-div-mul}
use extended_hypertrie_authe.MultiLayer.Node.Words.{packed, as_fr_int-packed, read_digit}

-- A digit of a packed number.
digit_of_packed :
    (vs : List ℕ) (index : ℕ)
    → All (λ v. v < 2 ^ 40) vs
    → index < length vs
    → packed vs / 2 ^ (40 * index) % 2 ^ 40 ≡ get_or vs index 0
unfolding packed
digit_of_packed [] index f h = elim h [ ]
digit_of_packed (v ∷ vs) zero f h = omega (arith, f.0)
digit_of_packed (v ∷ vs) (suc index) f h =
    let power : 2 ^ (40 * suc index) ≡ 2 ^ 40 * 2 ^ (40 * index) =
      ap (λ n. 2 ^ n) (omega arith) ∙ pow-add 40 (40 * index) in
    let rest : packed (v ∷ vs) / 2 ^ 40 ≡ packed vs = omega arith in
    rw power (
      rw (sym (div-div-eq-div-mul (packed (v ∷ vs)) (2 ^ 40) (2 ^ (40 * index))))
        (rw rest (digit_of_packed vs index f.1 (omega arith))))

-- Every version is read back from the field element of its node: the tree's version at index 0,
-- the key version of slot `i` at index `i + 1`; versions are below `2 ^ 40`.
pub versions_from_fr_int-as_fr_int :
    (node : Node) (index fr_int : ℕ)
    → length node.key_versions.versions ≤ 5
    → node.tree_version < 2 ^ 40
    → All (λ v. v < 2 ^ 40) node.key_versions.versions
    → index ≤ length node.key_versions.versions
    → as_fr_int node ≡ some fr_int
    → versions_from_fr_int fr_int index
      ≡ some (get_or (node.tree_version ∷ node.key_versions.versions) index 0)
versions_from_fr_int-as_fr_int node index fr_int few tv f h e =
    let all = node.tree_version ∷ node.key_versions.versions in
    let value : packed all ≡ fr_int =
      ap (λ o. elim o [ none ↦ 0 | some n ↦ n ]) (sym (as_fr_int-packed node few) ∙ e) in
    read_digit fr_int index (omega arith)
    ∙ rw (sym value) (ap some (digit_of_packed all index (tv, f) (omega arith)))

-- A version one higher adds a power of two to the packed number.
packed-set :
    (vs : List ℕ) (index : ℕ)
    → index < length vs
    → get_or vs index 0 + 1 < 2 ^ 40
    → packed (set vs index (get_or vs index 0 + 1)) ≡ packed vs + 2 ^ (40 * index)
unfolding packed
packed-set [] index h small = elim h [ ]
packed-set (v ∷ vs) zero h small = omega (arith, small)
packed-set (v ∷ vs) (suc index) h small =
    let power : 2 ^ (40 * suc index) ≡ 2 ^ 40 * 2 ^ (40 * index) =
      ap (λ n. 2 ^ n) (omega arith) ∙ pow-add 40 (40 * index) in
    rw power (omega (arith, packed-set vs index (omega arith) small))

-- The version of a slot of the node, one higher and below `2 ^ 40`: the write of `inc_key_ver` to
-- the node of the proof shard does not panic, and the field element of the node that it leaves is
-- the old one and the power of two that `inc_key_ver` adds to the tree elsewhere.
pub as_fr_int-bump_version :
    (node : Node) (slot fr_int : ℕ)
    → length node.key_versions.versions ≤ 5
    → slot < length node.key_versions.versions
    → get_or node.key_versions.versions slot 0 + 1 < 2 ^ 40
    → as_fr_int node ≡ some fr_int
    → (do new ← bump_version slot node; as_fr_int new)
      ≡ some (fr_int + fr_int_pow_2 ((slot + 1) * 40))
unfolding bump_version fr_int_pow_2 packed
as_fr_int-bump_version node slot fr_int few h small e =
    let vs = node.key_versions.versions in
    let new = get_or vs slot 0 + 1 in
    let value : packed (node.tree_version ∷ vs) ≡ fr_int =
      ap (λ o. elim o [ none ↦ 0 | some n ↦ n ]) (sym (as_fr_int-packed node few) ∙ e) in
    let power : 2 ^ ((slot + 1) * 40) ≡ 2 ^ 40 * 2 ^ (40 * slot) =
      ap (λ n. 2 ^ n) (omega arith) ∙ pow-add 40 (40 * slot) in
    let fits : 2 ^ ((slot + 1) * 40) % 2 ^ 256 ≡ 2 ^ ((slot + 1) * 40) =
      mod-eq_of_lt (omega (arith, pow_mono ((slot + 1) * 40) 200 (omega arith))) in
    let word : new % 2 ^ 64 ≡ new = omega (arith, small) in
    let bumped : Node = record node { key_versions = record { versions = set vs slot new } } in
    rw (get_elem?-get_or vs slot 0 h, word, fits)
      (as_fr_int-packed bumped (rw (length-set vs slot new) few)
        ∙ ap some (rw (sym value) (rw power (omega (arith, packed-set vs slot h small)))))
