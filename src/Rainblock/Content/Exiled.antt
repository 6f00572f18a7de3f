-- ===== src/Rainblock/Content/Exiled.antt =====
-- exile of asb-authdb/rainblock-trie/src/trie_node_ext.rs marks nodes and changes nothing else.
use Prim.Native.Nat.{compare, Ordering}
use Prim.Native.Nat.Ordering.{lt, eq, gt}
use extended_hypertrie_authe.Prelude.{
  ℕ, zero, suc, ◌+◌, [], ◌∷◌, Option, ◌≡◌, ◌⊎◌, inl, inr, refl, sym, subst, ap, fun_ext, ◌∙◌,
}
use extended_hypertrie_authe.Prelude.Options.{◌>>=◌}
use extended_hypertrie_authe.Serde.{Bytes}
use extended_hypertrie_authe.Rainblock.Nibble.{Nibbles, strip_prefix}
use extended_hypertrie_authe.Rainblock.Node.{
  TrieNode, leaf, branch, extension, ChildRef, null, ref, owned, TrieNodeExt, ext, ChildRefGroup,
  nil, cons, NodeCache, child_at, group_length, exile_node, exile_below, exile, exile_group,
}
use extended_hypertrie_authe.Rainblock.Content.{
  look, find, find_child, IsBranch, LeadsToBranch, IsTrie, IsTrieRef, IsTrieExt, AreTries,
}
use extended_hypertrie_authe.Rainblock.Content.Steps.{find-extension}

Ordering-cases : (o : Ordering) → (o ≡ lt) ⊎ ((o ≡ eq) ⊎ (o ≡ gt))
Ordering-cases lt = inl refl
Ordering-cases eq = inr (inl refl)
Ordering-cases gt = inr (inr refl)

module _ {H : Type 0} where
  exile_node_cases :
      (n depth : ℕ) (node : TrieNode H) (cache : NodeCache H)
      → (c : NodeCache H) × ((exile_node n depth (ext node cache) ≡ ext node c)
          ⊎ (exile_node n depth (ext node cache) ≡ ext (exile_below n (suc depth) node) c))
  unfolding exile_node
  exile_node_cases n depth node cache = elim (Ordering-cases (compare depth n)) [
    | inl e ↦ (cache, inr (rw e refl))
    | inr (inl e) ↦ (record cache { exiled = cache.exiled + 1 }, inl (rw e refl))
    | inr (inr e) ↦ (cache, inl (rw e refl))
  ]

module _ {H : Type 0} (load : H → Option (TrieNodeExt H)) where
  mutual
    unfolding exile_node exile_below exile exile_group look

    find-exile_below :
        (n depth : ℕ) (node : TrieNode H) (key : Nibbles)
        → find load (exile_below n depth node) key ≡ find load node key
    find-exile_below n depth (leaf k value) key = refl
    find-exile_below n depth (branch children value) [] = refl
    find-exile_below n depth (branch children value) (i ∷ key) =
        find_child-exile_group n depth children i key
    find-exile_below n depth (extension [] child) key = refl
    find-exile_below n depth (extension (p ∷ rest) child) key =
        find-extension load p rest (exile n depth child) key
        ∙ (ap (λ (h : Nibbles → Option Bytes). strip_prefix (p ∷ rest) key >>= h)
              (fun_ext (find_child-exile n depth child))
            ∙ sym (find-extension load p rest child key))

    pub find_child-exile :
        (n depth : ℕ) (child : ChildRef H) (key : Nibbles)
        → find_child load (exile n depth child) key ≡ find_child load child key
    find_child-exile n depth null key = refl
    find_child-exile n depth (ref h) key = refl
    find_child-exile n depth (owned (ext node cache)) key =
        elim (exile_node_cases n depth node cache).1 [
          | inl e ↦ ap (λ (x : TrieNodeExt H). find_child load (owned x) key) e
          | inr e ↦
              ap (λ (x : TrieNodeExt H). find_child load (owned x) key) e
              ∙ find-exile_below n (suc depth) node key
        ]

    find_child-exile_group :
        (n depth : ℕ) (children : ChildRefGroup H) (i : ℕ) (key : Nibbles)
        → find_child load (child_at (exile_group n depth children) i) key
          ≡ find_child load (child_at children i) key
    find_child-exile_group n depth nil i key = refl
    find_child-exile_group n depth (cons c children) zero key = find_child-exile n depth c key
    find_child-exile_group n depth (cons c children) (suc i) key =
        find_child-exile_group n depth children i key

  IsBranch-exile_below :
      (n depth : ℕ) (node : TrieNode H)
      → IsBranch load node
      → IsBranch load (exile_below n depth node)
  unfolding exile_below
  IsBranch-exile_below n depth (branch children value) b = tt
  IsBranch-exile_below n depth (leaf k v) b = b
  IsBranch-exile_below n depth (extension k c) b = b

  abbrev Leads : TrieNodeExt H → Type 0
  Leads node = LeadsToBranch load (owned node)

  pub LeadsToBranch-exile :
      (n depth : ℕ) (child : ChildRef H)
      → LeadsToBranch load child
      → LeadsToBranch load (exile n depth child)
  unfolding exile
  LeadsToBranch-exile n depth null h = h
  LeadsToBranch-exile n depth (ref digest) h = h
  LeadsToBranch-exile n depth (owned (ext node cache)) (below, e, b) =
      let same : node ≡ below = cc in
      let b' : IsBranch load node = subst (IsBranch load) (sym same) b in
      elim (exile_node_cases n depth node cache).1 [
        | inl e ↦ subst Leads (sym e) (node, refl, b')
        | inr e ↦
            subst Leads (sym e)
              (exile_below n (suc depth) node, refl, IsBranch-exile_below n (suc depth) node b')
      ]

  length-exile_group :
      (n depth : ℕ) (children : ChildRefGroup H)
      → group_length (exile_group n depth children) ≡ group_length children
  unfolding exile_group
  length-exile_group n depth nil = refl
  length-exile_group n depth (cons c children) = ap suc (length-exile_group n depth children)

  module _ (Known : H → Type 0) where
    mutual
      unfolding exile_node exile_below exile exile_group

      IsTrie-exile_below :
          (n depth : ℕ) (node : TrieNode H)
          → IsTrie load Known node
          → IsTrie load Known (exile_below n depth node)
      IsTrie-exile_below n depth (leaf k value) t = t
      IsTrie-exile_below n depth (branch children value) t =
          (length-exile_group n depth children ∙ t.0, AreTries-exile_group n depth children t.1)
      IsTrie-exile_below n depth (extension key child) t =
          (t.0, t.1, IsTrieRef-exile n depth child t.2, LeadsToBranch-exile n depth child t.3)

      pub IsTrieRef-exile :
          (n depth : ℕ) (child : ChildRef H)
          → IsTrieRef load Known child
          → IsTrieRef load Known (exile n depth child)
      IsTrieRef-exile n depth null t = t
      IsTrieRef-exile n depth (ref h) t = t
      IsTrieRef-exile n depth (owned (ext node cache)) t =
          elim (exile_node_cases n depth node cache).1 [
            | inl e ↦ subst (IsTrieExt load Known) (sym e) t
            | inr e ↦ subst (IsTrieExt load Known) (sym e) (IsTrie-exile_below n (suc depth) node t)
          ]

      AreTries-exile_group :
          (n depth : ℕ) (children : ChildRefGroup H)
          → AreTries load Known children
          → AreTries load Known (exile_group n depth children)
      AreTries-exile_group n depth nil t = t
      AreTries-exile_group n depth (cons c children) t =
          (IsTrieRef-exile n depth c t.0, AreTries-exile_group n depth children t.1)
