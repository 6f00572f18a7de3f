-- ===== src/Rainblock/Content/Single.antt =====
-- Branches that lose a child in asb-authdb/rainblock-trie/src: only_child_mut and no_child of
-- child_ref.rs, and drop_single_child_branch.
use extended_hypertrie_authe.Prelude.{
  ℕ, zero, suc, ◌+◌, ◌<◌, List, [], ◌∷◌, Option, none, some, Bool, true, false, ◌==◌, ==_iff, ◌≡◌,
  ◌≢◌, inl, inr, refl, sym, ap, fun_ext, subst, ◌∙◌, arith, list_beq, Bool-cases, Option-cases,
}
use extended_hypertrie_authe.Serde.{Bytes}
use extended_hypertrie_authe.Rainblock.Nibble.{Nibbles, add_prefix}
use extended_hypertrie_authe.Rainblock.Node.{
  TrieNode, leaf, branch, extension, ChildRef, null, ref, owned, TrieNodeExt, ext, ChildRefGroup,
  nil, cons, NodeCache, seal, child_at, group_length, key_of, set_key, no_child, only_child,
  only_child_from, deleted_digest,
}
use extended_hypertrie_authe.Rainblock.Search.{Stack, loaded_mut, owned_or_load}
use extended_hypertrie_authe.Rainblock.Remove.{
  connect_node, drop_single_child_branch, shrink_branch,
}
use extended_hypertrie_authe.Rainblock.Content.{
  look, find, find_child, resolve, IsBranch, IsTrie, IsTrieRef, AreTries, IsClosed,
}
use extended_hypertrie_authe.Rainblock.Content.Steps.{graft}
use extended_hypertrie_authe.Rainblock.Content.Frames.{
  Sits, AreFrames, around, strip_prefix_first, strip_prefix_nil,
}
use extended_hypertrie_authe.Rainblock.Content.Rebuild.{graft-none, AreTries-child_at}
use extended_hypertrie_authe.Rainblock.Content.Found.{child_cases, find_child-resolve}
use extended_hypertrie_authe.Rainblock.Content.Placed.{nothing, find-extension_graft}
use extended_hypertrie_authe.Rainblock.Content.Joined.{
  key_of-Prefixed, Rebuilds, push_non_branch_to_stack-Rebuilds,
}

module _ {H : Type 0} where
  no_child-null :
      (children : ChildRefGroup H) (j : ℕ) → no_child children ≡ true → child_at children j ≡ null
  unfolding no_child
  no_child-null nil j h = refl
  no_child-null (cons null children) zero h = refl
  no_child-null (cons null children) (suc j) h = no_child-null children j h
  no_child-null (cons (ref x) children) j h = cc
  no_child-null (cons (owned x) children) j h = cc

  -- After one child was seen, the loop ends with it only if there is no other.
  only_child_from-seen :
      (children : ChildRefGroup H) (start i r : ℕ)
      → only_child_from start (some i) children ≡ some r
      → (r ≡ i) × ((j : ℕ) → child_at children j ≡ null)
  unfolding only_child_from
  only_child_from-seen nil start i r h = (cc, λ j. refl)
  only_child_from-seen (cons null children) start i r h =
      let (e, nulls) = only_child_from-seen children (suc start) i r h in
      (
        e,
        λ j. elim j as (λ k. child_at (cons null children) k ≡ null) [
          | zero ↦ refl
          | suc k ↦ nulls k
        ],
      )
  only_child_from-seen (cons (ref x) children) start i r h = cc
  only_child_from-seen (cons (owned x) children) start i r h = cc

  abbrev SoleChild : ChildRefGroup H → ℕ → Type 0
  SoleChild children i =
      (i < group_length children)
      × (child_at children i ≢ null)
      × ((j : ℕ) → i ≢ j → child_at children j ≡ null)

  sole_here :
      (c : ChildRef H) (children : ChildRefGroup H)
      → c ≢ null
      → ((j : ℕ) → child_at children j ≡ null)
      → SoleChild (cons c children) 0
  sole_here c children h nulls = (
    omega arith,
    h,
    λ j. elim j as (λ k. 0 ≢ k → child_at (cons c children) k ≡ null) [
      | zero ↦ λ ne. absurd (ne refl)
      | suc k ↦ λ ne. nulls k
    ],
  )

  only_child_from-SoleChild :
      (children : ChildRefGroup H) (start r : ℕ)
      → only_child_from start none children ≡ some r
      → (i : ℕ) × (r ≡ start + i) × SoleChild children i
  unfolding only_child_from
  only_child_from-SoleChild nil start r h = cc
  only_child_from-SoleChild (cons null children) start r h =
      let (i, e, (lt, there, nulls)) = only_child_from-SoleChild children (suc start) r h in
      (
        suc i,
        omega (arith, e),
        (
          omega (arith, lt),
          there,
          λ j. elim j as (λ k. suc i ≢ k → child_at (cons null children) k ≡ null) [
            | zero ↦ λ ne. refl
            | suc k ↦ λ ne. nulls k (λ same. ne (ap suc same))
          ],
        ),
      )
  only_child_from-SoleChild (cons (ref x) children) start r h =
      let (e, nulls) = only_child_from-seen children (suc start) start r h in
      (0, omega (arith, e), sole_here (ref x) children (λ eq. cc) nulls)
  only_child_from-SoleChild (cons (owned x) children) start r h =
      let (e, nulls) = only_child_from-seen children (suc start) start r h in
      (0, omega (arith, e), sole_here (owned x) children (λ eq. cc) nulls)

  only_child-Only :
      (children : ChildRefGroup H) (i : ℕ) → only_child children ≡ some i → SoleChild children i
  unfolding only_child
  only_child-Only children i h =
      let (j, e, only) = only_child_from-SoleChild children 0 i h in
      let same : j ≡ i = omega (arith, e) in subst (SoleChild children) same only

module _ {H : Type 0} (load : H → Option (TrieNodeExt H)) (Known : H → Type 0) where
  only_child-graft :
      (children : ChildRefGroup H) (i : ℕ) (key : Nibbles)
      → SoleChild children i
      → find load (branch children []) key
        ≡ graft (i ∷ []) (find_child load (child_at children i)) nothing key
  unfolding look
  only_child-graft children i [] only = sym (graft-none (i ∷ []) _ nothing [] (strip_prefix_nil i))
  only_child-graft children i (j ∷ key) only = elim (Bool-cases (i == j)) [
    | inl hit ↦
        rw (graft, strip_prefix_first i j key true hit)
          (ap (λ (k : ℕ). find_child load (child_at children k) key) (sym ((==_iff i j).0 hit)))
    | inr miss ↦
        let differ : i ≢ j = λ same. (let hit = (==_iff i j).1 same in cc) in
        ap (λ (c : ChildRef H). find_child load c key) (only.2 j differ)
        ∙ sym (
            graft-none (i ∷ []) (find_child load (child_at children i)) nothing (j ∷ key)
              (strip_prefix_first i j key false miss))
  ]

  pub find-no_child :
      (children : ChildRefGroup H) (value : Bytes) (key : Nibbles)
      → no_child children ≡ true
      → find load (branch children value) key ≡ find load (leaf [] value) key
  unfolding look list_beq
  find-no_child children value [] h = refl
  find-no_child children value (j ∷ key) h =
      ap (λ (c : ChildRef H). find_child load c key) (no_child-null children j h)

  loaded_of_below :
      (child : ChildRef H) (node : TrieNodeExt H) (read : Bool)
      → owned_or_load load child ≡ some (some (node, read))
      → loaded_mut load child ≡ some node
  unfolding owned_or_load loaded_mut
  loaded_of_below null node read h = cc
  loaded_of_below (owned x) node read h = cc
  loaded_of_below (ref digest) node read h = elim (Option-cases (load digest)) [
    | inl e ↦ let h' = rw e at h in cc
    | inr (x, e) ↦ let h' = rw e at h in let same : x ≡ node = cc in e ∙ ap some same
  ]

  keyless : (node : TrieNode H) → key_of node ≡ none → IsBranch load node
  unfolding key_of
  keyless (branch children value) h = tt
  keyless (leaf k v) h = cc
  keyless (extension k c) h = cc

  connect_keyless :
      (i : ℕ) (below : TrieNode H) (c : NodeCache H)
      → key_of below ≡ none
      → connect_node i (ext below c) ≡ some (extension (i ∷ []) (owned (ext below c)), [])
  unfolding connect_node
  connect_keyless i below c e = rw (connect_node, e) refl

  connect_keyed :
      (i : ℕ) (below : TrieNode H) (c : NodeCache H) (key : Nibbles) (new : TrieNode H)
      → key_of below ≡ some key
      → set_key below (add_prefix key (i ∷ [])) ≡ some new
      → connect_node i (ext below c) ≡ some (new, deleted_digest (ext below c))
  unfolding connect_node
  connect_keyed i below c key new e set = rw (connect_node, e) (rw set refl)

  connect :
      (i : ℕ) (child : ChildRef H) (below : TrieNode H) (c : NodeCache H)
      → i < 16
      → loaded_mut load child ≡ some (ext below c)
      → resolve load child ≡ some below
      → IsTrie load Known below
      → (node : TrieNode H) × (digests : List H) × (drop_single_child_branch load i child
          ≡ some (node, digests))
        × (find load node ≡ graft (i ∷ []) (find_child load child) nothing)
        × IsTrie load Known node
        × ((k : Nibbles) × (key_of node ≡ some k))
  unfolding drop_single_child_branch
  connect i child below c lt loaded found trie =
      let inner : find load below ≡ find_child load child =
        fun_ext λ key. sym (find_child-resolve load Known child below key found) in
      let under = ap (λ (x : Nibbles → Option Bytes). graft (i ∷ []) x nothing) inner in
      elim (Option-cases (key_of below)) [
        | inl e ↦ (
          extension (i ∷ []) (owned (ext below c)),
          [],
          rw loaded (connect_keyless i below c e),
          find-extension_graft load Known i [] (owned (ext below c)) ∙ under,
          ((lt, tt), (λ eq. cc), trie, (below, refl, keyless below e)),
          (i ∷ [], refl),
        )
        | inr (k, e) ↦
            let (new, set, same, t, key) =
              key_of-Prefixed load Known (i ∷ []) below k trie (lt, tt) e in
            (
              new,
              deleted_digest (ext below c),
              rw loaded (connect_keyed i below c k new e set),
              same ∙ under,
              t,
              key,
            )
      ]

  -- The node that takes the place of a branch with one child.
  drop_single_child_branch-graft :
      (i : ℕ) (child : ChildRef H)
      → IsClosed load Known
      → IsTrieRef load Known child
      → i < 16
      → child ≢ null
      → (node : TrieNode H) × (digests : List H) × (drop_single_child_branch load i child
          ≡ some (node, digests))
        × (find load node ≡ graft (i ∷ []) (find_child load child) nothing)
        × IsTrie load Known node
        × ((k : Nibbles) × (key_of node ≡ some k))
  drop_single_child_branch-graft i child closed t lt there =
      elim (child_cases load Known child closed t) [
        | inl gone ↦ absurd (there gone)
        | inr (below, c, read, e, found, trie) ↦
            connect i child below c lt (loaded_of_below child (ext below c) read e) found trie
      ]

  pub shrink_branch-Rebuilds :
      (children : ChildRefGroup H) (stack : Stack H)
      → IsClosed load Known
      → group_length children ≡ 16
      → AreTries load Known children
      → AreFrames load Known stack
      → Sits (IsBranch load) (branch children []) stack
      → (new : Stack H) × (digests : List H) × (shrink_branch load children stack
          ≡ some (new, digests))
        × Rebuilds load Known new (around load Known stack (find load (branch children [])))
  unfolding shrink_branch
  shrink_branch-Rebuilds children stack closed len t f s =
      elim (Option-cases (only_child children)) [
        | inl e ↦ (
          (seal (branch children []), none) ∷ stack,
          [],
          rw (shrink_branch, e) refl,
          (f, s, (len, t), refl),
        )
        | inr (i, e) ↦
            let only = only_child-Only children i e in
            let (node, digests, dropped, found, trie, (k, key)) =
              drop_single_child_branch-graft i (child_at children i) closed
                (AreTries-child_at load Known children i t) (omega (arith, len, only.0)) only.1 in
            let (new, pushed, rebuilds) =
              push_non_branch_to_stack-Rebuilds load Known node k stack trie key f in
            let same : find load node ≡ find load (branch children []) =
              found ∙ sym (fun_ext λ key. only_child-graft children i key only) in
            (
              new,
              digests,
              rw (shrink_branch, e) (rw dropped (rw pushed refl)),
              subst (Rebuilds load Known new) (ap (around load Known stack) same) rebuilds,
            )
      ]
