-- ===== src/Rainblock/Content/Steps.antt =====
-- How the content of a node follows from its parts.
use extended_hypertrie_authe.Prelude.{
  ℕ, zero, suc, ◌<◌, [], ◌∷◌, ◌++◌, Option, none, some, false, ◌==◌, ◌≡◌, refl, arith, list_beq,
  if◌then◌else◌, Bool-cases, Option-cases, inl, inr,
}
use extended_hypertrie_authe.Prelude.Options.{◌>>=◌}
use extended_hypertrie_authe.Serde.{Bytes}
use extended_hypertrie_authe.Rainblock.Nibble.{Nibbles, strip_prefix}
use extended_hypertrie_authe.Rainblock.Node.{
  TrieNode, extension, ChildRef, null, TrieNodeExt, ChildRefGroup, nil, cons, child_at, set_child,
  group_length, null_group,
}
use extended_hypertrie_authe.Rainblock.Content.{resolve, look, find, find_child}

-- A partial function changed at one key.
abbrev pub update : (Nibbles → Option Bytes) → Nibbles → Option Bytes → Nibbles → Option Bytes
update x at w key = if list_beq at key then w else x key

-- What a key holds if a part of the tree is replaced: `x` below the prefix, and `y` elsewhere.
abbrev pub graft :
    Nibbles → (Nibbles → Option Bytes) → (Nibbles → Option Bytes) → Nibbles → Option Bytes
graft prefix x y key = elim (strip_prefix prefix key) [ none ↦ y key | some rest ↦ x rest ]

pub strip_prefix-append :
    (prefix key rest : Nibbles) → strip_prefix prefix key ≡ some rest → key ≡ prefix ++ rest
unfolding strip_prefix
strip_prefix-append [] key rest h = ground arith
strip_prefix-append (x ∷ prefix) [] rest h = ground arith
strip_prefix-append (x ∷ prefix) (y ∷ key) rest h =
    ground (arith, strip_prefix-append prefix key rest)

pub strip_prefix_self : (prefix rest : Nibbles) → strip_prefix prefix (prefix ++ rest) ≡ some rest
unfolding strip_prefix
strip_prefix_self [] rest = refl
strip_prefix_self (x ∷ prefix) rest = ground (arith, strip_prefix_self prefix rest)

list_beq-append :
    (prefix at key : Nibbles)
    → list_beq (prefix ++ at) key
      ≡ (elim (strip_prefix prefix key) [ none ↦ false | some rest ↦ list_beq at rest ])
unfolding strip_prefix list_beq
list_beq-append [] at key = refl
list_beq-append (p ∷ prefix) at [] = refl
list_beq-append (p ∷ prefix) at (i ∷ key) = ground (arith, list_beq-append prefix at key)

-- An update below a prefix is an update of the whole.
pub graft-update :
    (prefix : Nibbles) (x y : Nibbles → Option Bytes) (at : Nibbles) (w : Option Bytes)
    (key : Nibbles)
    → graft prefix (update x at w) y key ≡ update (graft prefix x y) (prefix ++ at) w key
graft-update prefix x y at w key =
    let eq = list_beq-append prefix at key in
    elim (Option-cases (strip_prefix prefix key)) [
      | inl e ↦ rw (eq, graft, e) refl
      | inr (rest, e) ↦ rw (eq, graft, e) refl
    ]

module _ {H : Type 0} where
  pub child_at-set_child :
      (children : ChildRefGroup H) (i j : ℕ) (new : ChildRef H)
      → i < group_length children
      → child_at (set_child children i new) j ≡ (if i == j then new else child_at children j)
  child_at-set_child nil i j new h = absurd (omega (arith, h))
  child_at-set_child (cons c children) zero zero new h = refl
  child_at-set_child (cons c children) zero (suc j) new h = ground arith
  child_at-set_child (cons c children) (suc i) zero new h = ground arith
  child_at-set_child (cons c children) (suc i) (suc j) new h =
      ground (arith, child_at-set_child children i j new)

  pub group_length-set_child :
      (children : ChildRefGroup H) (i : ℕ) (new : ChildRef H)
      → group_length (set_child children i new) ≡ group_length children
  group_length-set_child nil i new = refl
  group_length-set_child (cons c children) zero new = refl
  group_length-set_child (cons c children) (suc i) new =
      omega (arith, group_length-set_child children i new)

  pub child_at-null_group : (n i : ℕ) → child_at {H = H} (null_group n) i ≡ null
  child_at-null_group zero i = refl
  child_at-null_group (suc n) zero = refl
  child_at-null_group (suc n) (suc i) = child_at-null_group n i

abbrev no_bytes {ℓ} : {A : Type ℓ} → A → Option Bytes
no_bytes a = none

no_value {ℓ} : {A : Type ℓ} (o : Option A) → none ≡ (o >>= no_bytes)
no_value none = refl
no_value (some a) = refl

module _ {H : Type 0} (load : H → Option (TrieNodeExt H)) where
  pub look-strip_prefix :
      (pending : Nibbles) (node : TrieNode H) (key : Nibbles)
      → look load pending node key ≡ (strip_prefix pending key >>= find load node)
  unfolding look strip_prefix
  look-strip_prefix [] node key = refl
  look-strip_prefix (p ∷ pending) node [] = refl
  look-strip_prefix (p ∷ pending) node (i ∷ key) =
      ground (arith, look-strip_prefix pending node key)

  -- `find_child` of a child that Leads to the node, if to any.
  abbrev pub find_at : Option (TrieNode H) → Nibbles → Option Bytes
  find_at o key = elim o [ none ↦ none | some node ↦ find load node key ]

  first_nibble :
      (p i : ℕ) (pending key : Nibbles) (o : Option (TrieNode H))
      → (elim o [ none ↦ none | some node ↦ if p == i then look load pending node key else none ])
        ≡ ((if p == i then strip_prefix pending key else none) >>= find_at o)
  first_nibble p i pending key none = elim (Bool-cases (p == i)) [
    | inl e ↦ rw e (no_value (strip_prefix pending key))
    | inr e ↦ rw e refl
  ]
  first_nibble p i pending key (some node) = ground (arith, look-strip_prefix pending node key)

  pub find-extension :
      (p : ℕ) (pending : Nibbles) (child : ChildRef H) (key : Nibbles)
      → find load (extension (p ∷ pending) child) key
        ≡ (strip_prefix (p ∷ pending) key >>= find_child load child)
  unfolding look strip_prefix
  find-extension p pending child [] = refl
  find-extension p pending child (i ∷ key) = first_nibble p i pending key (resolve load child)
