-- ===== src/Rainblock/Content/Absent.antt =====
-- get of asb-authdb/rainblock-trie/src/rain_mpt.rs at a key that only other keys go on from.
use extended_hypertrie_authe.Prelude.{
  ℕ, List, [], ◌∷◌, ◌++◌, Option, none, some, Bool, true, false, ◌≡◌, ◌≢◌, refl, sym, ap, ap₂, ◌∙◌,
  list_beq, list_beq_iff, if◌then◌else◌, append_cancel_left, Option-cases, Bool-cases, length,
  length-append, arith, inl, inr,
}
use extended_hypertrie_authe.Serde.{Bytes}
use extended_hypertrie_authe.Rainblock.Nibble.{
  Nibbles, strip_prefix, bytes_to_nibble_list, from_hi, from_lo,
}
use extended_hypertrie_authe.Rainblock.Node.{
  TrieNode, leaf, branch, extension, ChildRef, TrieNodeExt, value_of, ext,
}
use extended_hypertrie_authe.Rainblock.Content.{stored, look, find, find_child, IsTrie, IsClosed}
use extended_hypertrie_authe.Rainblock.Content.Steps.{
  find-extension, strip_prefix-append, strip_prefix_self,
}
use extended_hypertrie_authe.Rainblock.Content.Found.{EndsAt}
use extended_hypertrie_authe.Rainblock.Ops.{MerklePatriciaTree, get}
use extended_hypertrie_authe.Rainblock.Content.Keys.{AreBytes}
use extended_hypertrie_authe.Rainblock.Content.Changes.{content, IsRooted}
use extended_hypertrie_authe.Rainblock.Content.Mapping.{searched, get_returns, at_key, below_key}
use extended_hypertrie_authe.Rainblock.Content.Refines.{holds, IsTree}

-- Two keys that go on from one place by different nibbles have no more in common.
fork :
    (place a b k r s : Nibbles) (i j : ℕ)
    → i ≢ j
    → place ++ (i ∷ a) ≡ k ++ r
    → place ++ (j ∷ b) ≡ k ++ s
    → (rest : Nibbles) × (place ≡ k ++ rest)
fork place a b [] r s i j ne e f = (place, refl)
fork [] a b (x ∷ k) r s i j ne e f =
    let left : i ≡ x = cc in let right : j ≡ x = cc in absurd (ne (left ∙ sym right))
fork (x ∷ place) a b (y ∷ k) r s i j ne e f =
    let first : x ≡ y = cc in
    let e' : place ++ (i ∷ a) ≡ k ++ r = cc in
    let f' : place ++ (j ∷ b) ≡ k ++ s = cc in
    let (rest, same) = fork place a b k r s i j ne e' f' in
    (rest, ap₂ (λ (u : ℕ) (v : Nibbles). u ∷ v) first same)

no_longer : (k a : Nibbles) (i : ℕ) → k ≢ k ++ (i ∷ a)
no_longer k a i h = omega (arith, ap length h, length-append k (i ∷ a))

stored-none : (v : Bytes) → stored v ≡ none → v ≡ []
stored-none [] h = refl
stored-none (b ∷ v) h = cc

module _ {H : Type 0} (load : H → Option (TrieNodeExt H)) (Known : H → Type 0) where
  leaf_key : (k key : Nibbles) (v : Bytes) → find load (leaf k v) key ≢ none → k ≡ key
  unfolding look
  leaf_key k key v h = elim (Bool-cases (list_beq k key)) [
    | inl e ↦ (list_beq_iff k key).0 e
    | inr e ↦ absurd (h (rw e refl))
  ]

  extension_key :
      (p : ℕ) (k : Nibbles) (c : ChildRef H) (key : Nibbles)
      → find load (extension (p ∷ k) c) key ≢ none
      → (rest : Nibbles) × (key ≡ (p ∷ k) ++ rest)
  extension_key p k c key h = elim (Option-cases (strip_prefix (p ∷ k) key)) [
    | inl e ↦ absurd (h (find-extension load p k c key ∙ rw e refl))
    | inr (rest, e) ↦ (rest, strip_prefix-append (p ∷ k) key rest e)
  ]

  -- Where a search ends for a key with no value, from which two keys with values go on.
  forked :
      (is_match : Bool) (last : TrieNode H) (remainder place a b : Nibbles) (i j : ℕ)
      → IsTrie load Known last
      → EndsAt is_match last remainder place
      → find load last place ≡ none
      → find load last (place ++ (i ∷ a)) ≢ none
      → find load last (place ++ (j ∷ b)) ≢ none
      → i ≢ j
      → (if is_match then value_of last else none) ≡ some []
  unfolding value_of look
  forked true (leaf k v) remainder place a b i j t e gone left right ne =
      absurd (no_longer place a i (e ∙ leaf_key k (place ++ (i ∷ a)) v left))
  forked true (branch c v) remainder place a b i j t e gone left right ne =
      ap some (stored-none v (sym (ap (find load (branch c v)) e) ∙ gone))
  forked true (extension k c) remainder place a b i j t e gone left right ne = absurd e
  forked false (leaf k v) remainder place a b i j t e gone left right ne =
      let one = leaf_key k (place ++ (i ∷ a)) v left in
      let two = leaf_key k (place ++ (j ∷ b)) v right in
      let tails : i ∷ a ≡ j ∷ b = append_cancel_left place (sym one ∙ two) in absurd (ne (cc))
  forked false (branch c v) remainder place a b i j t e gone left right ne =
      let (same, (x, rest, r, null_child)) = e in
      absurd (
        left (
          ap (λ (p : Nibbles). find load (branch c v) (p ++ (i ∷ a))) (same ∙ r)
          ∙ ap (λ (y : ChildRef H). find_child load y (rest ++ (i ∷ a))) null_child))
  forked false (extension [] c) remainder place a b i j t e gone left right ne = absurd (t.1 refl)
  forked false (extension (p ∷ k) c) remainder place a b i j t e gone left right ne =
      let (r, one) = extension_key p k c (place ++ (i ∷ a)) left in
      let (s, two) = extension_key p k c (place ++ (j ∷ b)) right in
      let (rest, inside) = fork place a b (p ∷ k) r s i j ne one two in
      let found = strip_prefix_self (p ∷ k) rest in
      let none_left : strip_prefix (p ∷ k) ((p ∷ k) ++ rest) ≡ none =
        ap (strip_prefix (p ∷ k)) (sym inside ∙ e.0) ∙ e.1 in
      cc

  nibbles-append :
      (key a : Bytes)
      → bytes_to_nibble_list (key ++ a) ≡ bytes_to_nibble_list key ++ bytes_to_nibble_list a
  unfolding bytes_to_nibble_list
  nibbles-append [] a = refl
  nibbles-append (b ∷ key) a =
      ap (λ (k : Nibbles). from_hi b ∷ from_lo b ∷ k) (nibbles-append key a)

  nibbles-continue :
      (key a : Bytes) (x : ℕ)
      → bytes_to_nibble_list (key ++ (x ∷ a))
        ≡ bytes_to_nibble_list key ++ (from_hi x ∷ from_lo x ∷ bytes_to_nibble_list a)
  unfolding bytes_to_nibble_list
  nibbles-continue key a x = nibbles-append key (x ∷ a)

  forked_rooted :
      (n : ℕ) (root : Option (TrieNodeExt H)) (ops : List H) (first : ℕ) (key a b : Bytes) (x y : ℕ)
      → IsClosed load Known
      → IsRooted load Known root
      → AreBytes (first ∷ key)
      → content load Known root (bytes_to_nibble_list (first ∷ key)) ≡ none
      → content load Known root (bytes_to_nibble_list ((first ∷ key) ++ (x ∷ a))) ≢ none
      → content load Known root (bytes_to_nibble_list ((first ∷ key) ++ (y ∷ b))) ≢ none
      → from_hi x ≢ from_hi y
      → (new : MerklePatriciaTree H) × (get load n
            (record { root = root; del_ops = ops })
            (first ∷ key)
          ≡ some (some [], new))
  forked_rooted n none ops first key a b x y closed tree bytes gone left right ne =
      absurd (left refl)
  forked_rooted n (some (ext node c)) ops first key a b x y closed tree bytes gone left right ne =
      let k = first ∷ key in
      let f = searched load Known closed n node c k tree bytes in
      let nibbles = bytes_to_nibble_list k in
      let inside = λ (z : ℕ) (d : Bytes).
        below_key load Known closed n node nibbles f
          (from_hi z ∷ from_lo z ∷ bytes_to_nibble_list d)
        ∙ ap (find load node) (sym (nibbles-continue k d z)) in
      let value =
        forked f.is_match f.last f.remainder f.place (from_lo x ∷ bytes_to_nibble_list a)
          (from_lo y ∷ bytes_to_nibble_list b) (from_hi x) (from_hi y) f.trie f.ends
          (at_key load Known closed n node nibbles f ∙ gone) (λ h. left (sym (inside x a) ∙ h))
          (λ h. right (sym (inside y b) ∙ h)) ne in
      let (root, c', runs, same, trie) = get_returns load Known closed n ops node c first key f in
      (
        record { root = some (ext root c'); del_ops = ops },
        runs
            ∙ ap
                (λ (o : Option Bytes).
                  some (o, record { root = some (ext root c'); del_ops = ops }))
                value,
      )

  -- In a tree with no value at the key and with values at two longer keys whose next bytes differ
  -- in their high halves, `get` of the key returns an empty value, and not none.
  pub get-forked :
      (n : ℕ) (t : MerklePatriciaTree H) (key a b : Bytes) (x y : ℕ)
      → IsClosed load Known
      → IsTree load Known t
      → AreBytes key
      → key ≢ []
      → holds load Known t key ≡ none
      → holds load Known t (key ++ (x ∷ a)) ≢ none
      → holds load Known t (key ++ (y ∷ b)) ≢ none
      → from_hi x ≢ from_hi y
      → (new : MerklePatriciaTree H) × (get load n t key ≡ some (some [], new))
  get-forked n t [] a b x y closed tree bytes full gone left right ne = absurd (full refl)
  get-forked n t (first ∷ key) a b x y closed tree bytes full gone left right ne =
      forked_rooted n t.root t.del_ops first key a b x y closed tree bytes gone left right ne
