-- ===== src/Rainblock/Content/Cut.antt =====
-- An extension that is cut: insert_on_extension of asb-authdb/rainblock-trie/src/rain_mpt.rs.
use extended_hypertrie_authe.Prelude.{
  ℕ, ◌+◌, ◌<◌, List, [], ◌∷◌, ◌++◌, Option, none, some, ◌==◌, ==_iff, ◌≡◌, ◌≢◌, inl, inr, refl, sym,
  ap, ap₂, fun_ext, subst, ◌∙◌, length, drop, Bool-cases, All-append_left, All-append_right,
}
use extended_hypertrie_authe.Serde.{Bytes}
use extended_hypertrie_authe.Rainblock.Nibble.{Nibbles, strip_prefix, common_prefix}
use extended_hypertrie_authe.Rainblock.Node.{
  TrieNode, leaf, branch, extension, ChildRef, null, ref, owned, TrieNodeExt, ext, ChildRefGroup,
  NodeCache, seal, set_child, group_length, empty_group, exile,
}
use extended_hypertrie_authe.Rainblock.Insert.{
  place_value, under_prefix, insert_on_extension, keep_rest,
}
use extended_hypertrie_authe.Rainblock.Content.{
  stored, find, find_child, resolve, IsBranch, LeadsToBranch, AreNibbles, IsTrie, IsTrieRef,
  IsTrieExt, IsClosed,
}
use extended_hypertrie_authe.Rainblock.Content.Steps.{
  update, graft, graft-update, child_at-set_child, group_length-set_child, child_at-null_group,
}
use extended_hypertrie_authe.Rainblock.Search.{loaded_mut}
use extended_hypertrie_authe.Rainblock.Content.Exiled.{
  find_child-exile, IsTrieRef-exile, LeadsToBranch-exile,
}
use extended_hypertrie_authe.Rainblock.Content.Rebuild.{AreTries-set_child}
use extended_hypertrie_authe.Rainblock.Content.Found.{find_child-resolve}
use extended_hypertrie_authe.Rainblock.Content.Placed.{
  nothing, graft-append, graft_nil, Vacant, find-place_value, IsTrie-under_prefix,
  find-under_prefix, find-empty_group, find-extension_graft, AreTries-null_group,
}
use extended_hypertrie_authe.Rainblock.Content.Frames.{find-with_child}
use extended_hypertrie_authe.Rainblock.Content.Parted.{
  common_prefix-Parts, Differ, common_prefix-Differ, cut_exists, Inserts,
}

graft-cut :
    (p a b : Nibbles) (next : ℕ) (first key : Nibbles) (x : Nibbles → Option Bytes)
    (v : Option Bytes)
    → first ≡ p ++ a
    → key ≡ p ++ (next ∷ b)
    → graft p (update (graft (next ∷ []) (graft b x nothing) nothing) a v) nothing
      ≡ update (graft key x nothing) first v
graft-cut p a b next first key x v e f =
    let inner = graft (next ∷ []) (graft b x nothing) nothing in
    let joined : graft p inner nothing ≡ graft (p ++ (next ∷ b)) x nothing =
      ap (λ (y : Nibbles → Option Bytes). graft p y nothing) (sym (graft-append (next ∷ []) b x))
      ∙ sym (graft-append p (next ∷ b) x) in
    fun_ext (graft-update p inner nothing a v)
    ∙ (ap (λ (y : Nibbles → Option Bytes). update y (p ++ a) v) joined
        ∙ ap₂ (λ (k l : Nibbles). update (graft k x nothing) l v) (sym f) (sym e))

module _ {H : Type 0} (load : H → Option (TrieNodeExt H)) (Known : H → Type 0) where
  abbrev ReadsBranch : ChildRef H → Type 0
  ReadsBranch child =
      (children : ChildRefGroup H) × (value : Bytes) × (c : NodeCache H) × (loaded_mut load child
        ≡ some (ext (branch children value) c))
      × (resolve load child ≡ some (branch children value))
      × IsTrie load Known (branch children value)

  owned_branch :
      (node : TrieNodeExt H)
      → IsTrieExt load Known node
      → LeadsToBranch load (owned node)
      → ReadsBranch (owned node)
  unfolding loaded_mut
  owned_branch (ext (branch children value) c) t l = (children, value, c, refl, refl, t)
  owned_branch (ext (leaf k v) c) t (node, e, b) =
      let same : node ≡ leaf k v = cc in absurd (subst (IsBranch load) same b)
  owned_branch (ext (extension k x) c) t (node, e, b) =
      let same : node ≡ extension k x = cc in absurd (subst (IsBranch load) same b)

  known_branch :
      (digest : H) (node : TrieNodeExt H)
      → load digest ≡ some node
      → IsTrieExt load Known node
      → LeadsToBranch load (ref digest)
      → ReadsBranch (ref digest)
  unfolding loaded_mut
  known_branch digest (ext (branch children value) c) e t l =
      (children, value, c, e, rw (resolve, e) refl, t)
  known_branch digest (ext (leaf k v) c) e t (node, there, b) =
      let found : resolve load (ref digest) ≡ some (leaf k v) = rw (resolve, e) refl in
      let same : node ≡ leaf k v = cc in absurd (subst (IsBranch load) same b)
  known_branch digest (ext (extension k x) c) e t (node, there, b) =
      let found : resolve load (ref digest) ≡ some (extension k x) = rw (resolve, e) refl in
      let same : node ≡ extension k x = cc in absurd (subst (IsBranch load) same b)

  read_branch :
      (child : ChildRef H)
      → IsClosed load Known
      → IsTrieRef load Known child
      → LeadsToBranch load child
      → ReadsBranch child
  read_branch null closed t (node, e, b) = cc
  read_branch (owned node) closed t l = owned_branch node t l
  read_branch (ref digest) closed t l =
      let (node, e, trie) = closed digest t in known_branch digest node e trie l

  -- The child under what is left of an extension's key.
  keep_rest-graft :
      (n : ℕ) (rest : Nibbles) (child : ChildRef H) (depth : ℕ)
      → IsClosed load Known
      → IsTrieRef load Known child
      → LeadsToBranch load child
      → AreNibbles load rest
      → (new : ChildRef H) × (digests : List H) × (keep_rest load n rest child depth
          ≡ some (new, digests))
        × (find_child load new ≡ graft rest (find_child load child) nothing)
        × IsTrieRef load Known new
  unfolding keep_rest
  keep_rest-graft n [] child depth closed t l d =
      (child, [], refl, fun_ext λ key. sym (graft_nil (find_child load child) nothing key), t)
  keep_rest-graft n (p ∷ rest) child depth closed t l d =
      let (children, value, c, e, there, trie) = read_branch child closed t l in
      let node = ext (branch children value) c in
      let below = exile n (depth + 2) (owned node) in
      let same : find_child load below ≡ find_child load child = fun_ext λ key.
        find_child-exile load n (depth + 2) (owned node) key
        ∙ sym (find_child-resolve load Known child (branch children value) key there) in
      (
        owned (seal (extension (p ∷ rest) below)),
        [],
        rw e refl,
        find-extension_graft load Known p rest below
            ∙ ap (λ (x : Nibbles → Option Bytes). graft (p ∷ rest) x nothing) same,
        (
          d,
          (λ e. cc),
          IsTrieRef-exile load Known n (depth + 2) (owned node) trie,
          LeadsToBranch-exile load n (depth + 2) (owned node) (branch children value, refl, tt),
        ),
      )

  Vacant-set_child :
      (a b : Nibbles) (next : ℕ) (below : ChildRef H)
      → next < 16
      → Differ a (next ∷ b)
      → Vacant load Known a (set_child empty_group next below)
  Vacant-set_child [] b next below h differ = tt
  Vacant-set_child (i ∷ a) b next below h differ = elim (Bool-cases (next == i)) [
    | inl hit ↦ absurd (differ (sym ((==_iff next i).0 hit)))
    | inr miss ↦ child_at-set_child empty_group next i below h ∙ rw miss (child_at-null_group 16 i)
  ]

  pub find-whole_extension :
      (key : Nibbles) (child : ChildRef H)
      → key ≢ []
      → find load (extension key child) ≡ graft key (find_child load child) nothing
  find-whole_extension [] child h = absurd (h refl)
  find-whole_extension (p ∷ rest) child h = find-extension_graft load Known p rest child

  pub insert_on_extension-Inserts :
      (n : ℕ) (key : Nibbles) (child : ChildRef H) (remainder : Nibbles) (val : Bytes) (depth : ℕ)
      → IsClosed load Known
      → IsTrie load Known (extension key child)
      → AreNibbles load remainder
      → strip_prefix key remainder ≡ none
      → val ≢ []
      → (new : TrieNode H) × (digests : List H) × (insert_on_extension load n key child remainder
            val depth
          ≡ some (new, digests))
        × Inserts load Known (extension key child) new remainder val
  unfolding insert_on_extension
  insert_on_extension-Inserts n key child remainder val depth closed t d apart full =
      let p = common_prefix remainder key in
      let a = drop (length p) remainder in
      let b = drop (length p + 1) key in
      let (next, at, cut) = cut_exists remainder key apart in
      let (rem_eq, key_eq) = common_prefix-Parts remainder key in
      let key_eq' : key ≡ p ++ (next ∷ b) = key_eq ∙ ap (λ (k : Nibbles). p ++ k) cut in
      let d' = subst (AreNibbles load) rem_eq d in
      let k' = subst (AreNibbles load) key_eq' t.0 in
      let da = All-append_right (λ (i : ℕ). i < 16) p a d' in
      let db = All-append_right (λ (i : ℕ). i < 16) p (next ∷ b) k' in
      let dp = All-append_left (λ (i : ℕ). i < 16) p a d' in
      let (kept, digests, keeps, kept_find, kept_trie) =
        keep_rest-graft n b child depth closed t.2 t.3 db.1 in
      let below = exile n (depth + 2) kept in
      let below_find : find_child load below ≡ graft b (find_child load child) nothing =
        fun_ext (find_child-exile load n (depth + 2) kept) ∙ kept_find in
      let group = set_child empty_group next below in
      let group_len : group_length group ≡ 16 =
        group_length-set_child {H = H} empty_group next below in
      let group_tries =
        AreTries-set_child load Known empty_group next below (AreTries-null_group load Known 16)
          (IsTrieRef-exile load Known n (depth + 2) kept kept_trie) in
      let differ = subst (Differ a) cut (common_prefix-Differ remainder key) in
      let (placed, len, tries) =
        find-place_value load Known a val group [] group_len group_tries da
          (Vacant-set_child a b next below db.0 differ) full in
      let new = place_value a val (group, []) in
      let x = find_child load child in
      let group_find : find load (branch group []) ≡ graft (next ∷ []) (graft b x nothing) nothing =
        find-with_child load Known (branch empty_group []) next below
          (refl, AreTries-null_group load Known 16, db.0)
        ∙ ap₂ (λ (y z : Nibbles → Option Bytes). graft (next ∷ []) y z) below_find
            (find-empty_group load Known) in
      let found =
        find-under_prefix load Known p (branch new.0 new.1)
        ∙ (ap (λ (y : Nibbles → Option Bytes). graft p y nothing)
              (placed ∙ ap (λ (y : Nibbles → Option Bytes). update y a (stored val)) group_find)
            ∙ (graft-cut p a b next remainder key x (stored val) rem_eq key_eq'
                ∙ ap (λ (y : Nibbles → Option Bytes). update y remainder (stored val))
                    (sym (find-whole_extension key child t.1)))) in
      (
        under_prefix p (branch new.0 new.1),
        digests,
        rw (at, keeps) refl,
        (found, IsTrie-under_prefix load Known p new.0 new.1 dp len tries, λ b. absurd b),
      )
