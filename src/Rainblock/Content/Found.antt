-- ===== src/Rainblock/Content/Found.antt =====
-- Where a search ends: next and search of asb-authdb/rainblock-trie/src.
use extended_hypertrie_authe.Prelude.{
  ℕ, [], ◌∷◌, ◌++◌, Option, none, some, Bool, true, false, ◌==◌, ==_iff, ◌≡◌, ◌⊎◌, inl, inr, refl,
  sym, ap, fun_ext, ◌∙◌, list_beq, Bool-cases, Option-cases,
}
use extended_hypertrie_authe.Serde.{Bytes}
use extended_hypertrie_authe.Rainblock.Nibble.{Nibbles, strip_prefix}
use extended_hypertrie_authe.Rainblock.Node.{
  TrieNode, leaf, branch, extension, ChildRef, null, ref, owned, TrieNodeExt, ext, ChildRefGroup,
  NodeCache, child_at, set_child,
}
use extended_hypertrie_authe.Rainblock.Search.{
  Stack, SearchResult, next, owned_or_load, next_of, mark_loaded,
}
use extended_hypertrie_authe.Rainblock.Content.{
  look, find, find_child, resolve, IsBranch, AreNibbles, IsTrie, IsTrieRef, IsTrieExt, IsClosed,
}
use extended_hypertrie_authe.Rainblock.Content.Steps.{graft, find-extension, find_at}
use extended_hypertrie_authe.Rainblock.Content.Frames.{
  path, Sits, IsFrame, AreFrames, around, find-with_child, strip_prefix_first, strip_prefix_nil,
}
use extended_hypertrie_authe.Rainblock.Content.Rebuild.{graft-graft, graft-none}

module _ {H : Type 0} where
  -- What is known of the last node, what is left of the key, and the place of the key in the node.
  abbrev pub EndsAt : Bool → TrieNode H → Nibbles → Nibbles → Type 0
  EndsAt true (leaf key value) remainder place = place ≡ key
  EndsAt true (branch children value) remainder place = place ≡ []
  EndsAt true (extension key child) remainder place = ⊥
  EndsAt false (leaf key value) remainder place =
      (place ≡ remainder) × (list_beq key remainder ≡ false)
  EndsAt false (branch children value) remainder place =
      (place ≡ remainder)
      × ((i : ℕ) × (rest : Nibbles) × (remainder ≡ i ∷ rest) × (child_at children i ≡ null))
  EndsAt false (extension key child) remainder place =
      (place ≡ remainder) × (strip_prefix key remainder ≡ none)

module _ {H : Type 0} (load : H → Option (TrieNodeExt H)) (Known : H → Type 0) where
  pub record Found (result : Option (SearchResult H)) (whole : Nibbles → Option Bytes)
      (key : Nibbles) : Type 0 where
    pub last : TrieNode H
    pub cache : NodeCache H
    pub stack : Stack H
    pub is_match : Bool
    pub remainder : Nibbles
    pub place : Nibbles
    pub returns :
        result
        ≡ some (record {
          stack = (ext last cache, none) ∷ stack;
          is_match = is_match;
          remainder = remainder;
        })
    pub frames : AreFrames load Known stack
    pub sits : Sits (IsBranch load) last stack
    pub trie : IsTrie load Known last
    pub nibbles : AreNibbles load remainder
    pub ends : EndsAt is_match last remainder place
    pub placed : path stack ++ place ≡ key
    pub same : around load Known stack (find load last) ≡ whole

  abbrev pub Below : ChildRef H → Type 0
  Below child =
      (node : TrieNode H) × (cache : NodeCache H) × (read : Bool) × (owned_or_load load child
        ≡ some (some (ext node cache, read)))
      × (resolve load child ≡ some node)
      × IsTrie load Known node

  load-Below :
      (digest : H) (node : TrieNodeExt H)
      → load digest ≡ some node
      → IsTrieExt load Known node
      → Below (ref digest)
  unfolding owned_or_load
  load-Below digest (ext node cache) e t = (node, cache, true, rw e refl, rw (resolve, e) refl, t)

  -- A child is null, or Leads to a node.
  pub child_cases :
      (child : ChildRef H)
      → IsClosed load Known
      → IsTrieRef load Known child
      → (child ≡ null) ⊎ Below child
  unfolding owned_or_load
  child_cases null closed h = inl refl
  child_cases (owned (ext node cache)) closed h = inr (node, cache, false, refl, refl, h)
  child_cases (ref digest) closed h =
      let (node, e, t) = closed digest h in inr (load-Below digest node e t)

  pub find_child-resolve :
      (child : ChildRef H) (below : TrieNode H) (key : Nibbles)
      → resolve load child ≡ some below
      → find_child load child key ≡ find load below key
  find_child-resolve child below key e = ap (λ (o : Option (TrieNode H)). find_at load o key) e

  graft_self_branch :
      (children : ChildRefGroup H) (value : Bytes) (idx : ℕ) (below : TrieNode H) (key : Nibbles)
      → resolve load (child_at children idx) ≡ some below
      → graft (idx ∷ []) (find load below) (find load (branch children value)) key
        ≡ find load (branch children value) key
  unfolding look
  graft_self_branch children value idx below [] e =
      graft-none (idx ∷ []) (find load below) (find load (branch children value)) []
        (strip_prefix_nil idx)
  graft_self_branch children value idx below (i ∷ key) e = elim (Bool-cases (idx == i)) [
    | inl hit ↦
        let same : idx ≡ i = (==_iff idx i).0 hit in
        let there : resolve load (child_at children i) ≡ some below = rw (← same) e in
        rw (graft, strip_prefix_first idx i key true hit)
          (sym (find_child-resolve (child_at children i) below key there))
    | inr miss ↦
        graft-none (idx ∷ []) (find load below) (find load (branch children value)) (i ∷ key)
          (strip_prefix_first idx i key false miss)
  ]

  graft_self_extension :
      (p : ℕ) (rest : Nibbles) (child : ChildRef H) (below : TrieNode H) (key : Nibbles)
      → resolve load child ≡ some below
      → graft (p ∷ rest) (find load below) (find load (extension (p ∷ rest) child)) key
        ≡ find load (extension (p ∷ rest) child) key
  graft_self_extension p rest child below key e =
      let whole = find load (extension (p ∷ rest) child) in
      elim (Option-cases (strip_prefix (p ∷ rest) key)) [
        | inl gone ↦ graft-none (p ∷ rest) (find load below) whole key gone
        | inr (k, found) ↦
            let inner : whole key ≡ find_child load child k =
              find-extension load p rest child key ∙ rw found refl in
            rw (graft, found) (sym (inner ∙ find_child-resolve child below k e))
      ]

  -- `next` goes to the node of a child and keeps what the tree holds.
  pub next_of-branch :
      (n depth i : ℕ) (children : ChildRefGroup H) (value : Bytes) (cache c : NodeCache H)
      (key : Nibbles) (below : TrieNode H) (read : Bool)
      → owned_or_load load (child_at children i) ≡ some (some (ext below c, read))
      → next_of load n (ext (branch children value) cache) (i ∷ key) depth
        ≡ some (
          next (ext below c) i,
          (
            mark_loaded load n depth read
                (ext (branch (set_child children i (owned (ext below c))) value) cache),
            key,
          ),
        )
  unfolding next_of
  next_of-branch n depth i children value cache c key below read e = rw e refl

  pub next_of-extension :
      (n depth : ℕ) (ext_key : Nibbles) (child : ChildRef H) (cache c : NodeCache H)
      (key rest : Nibbles) (below : TrieNode H) (read : Bool)
      → strip_prefix ext_key key ≡ some rest
      → owned_or_load load child ≡ some (some (ext below c, read))
      → next_of load n (ext (extension ext_key child) cache) key depth
        ≡ some (
          next (ext below c) 0,
          (
            mark_loaded load n depth read (ext (extension ext_key (owned (ext below c))) cache),
            rest,
          ),
        )
  unfolding next_of
  next_of-extension n depth ext_key child cache c key rest below read p e = rw (next_of, p, e) refl

  -- A search from another node that goes the same way.
  pub Found-step :
      (r r' : Option (SearchResult H)) (x x' : Nibbles → Option Bytes) (k k' : Nibbles)
      → Found r x k
      → r' ≡ r
      → x ≡ x'
      → k ≡ k'
      → Found r' x' k'
  Found-step r r' x x' k k' f e same key = record {
    last = f.last;
    cache = f.cache;
    stack = f.stack;
    is_match = f.is_match;
    remainder = f.remainder;
    place = f.place;
    returns = e ∙ f.returns;
    frames = f.frames;
    sits = f.sits;
    trie = f.trie;
    nibbles = f.nibbles;
    ends = f.ends;
    placed = f.placed ∙ key;
    same = f.same ∙ same;
  }

  -- The frame of a branch that the search leaves.
  pub around-branch :
      (children : ChildRefGroup H) (value : Bytes) (i : ℕ) (c cache : NodeCache H)
      (below : TrieNode H) (stack : Stack H)
      → IsFrame load Known (branch children value) i
      → resolve load (child_at children i) ≡ some below
      → around load Known
          ((ext (branch (set_child children i (owned (ext below c))) value) cache, some i) ∷ stack)
          (find load below)
        ≡ around load Known stack (find load (branch children value))
  around-branch children value i c cache below stack frame e = ap (around load Known stack) (
      ap (λ (y : Nibbles → Option Bytes). graft (i ∷ []) (find load below) y)
        (find-with_child load Known (branch children value) i (owned (ext below c)) frame)
      ∙ (graft-graft (i ∷ []) (find load below) (find load below)
            (find load (branch children value))
          ∙ fun_ext λ key. graft_self_branch children value i below key e))

  pub around-extension :
      (p : ℕ) (rest : Nibbles) (child : ChildRef H) (c cache : NodeCache H) (below : TrieNode H)
      (stack : Stack H)
      → IsFrame load Known (extension (p ∷ rest) child) 0
      → resolve load child ≡ some below
      → around load Known
          ((ext (extension (p ∷ rest) (owned (ext below c))) cache, some 0) ∷ stack)
          (find load below)
        ≡ around load Known stack (find load (extension (p ∷ rest) child))
  around-extension p rest child c cache below stack frame e = ap (around load Known stack) (
      ap (λ (y : Nibbles → Option Bytes). graft (p ∷ rest) (find load below) y)
        (find-with_child load Known (extension (p ∷ rest) child) 0 (owned (ext below c)) frame)
      ∙ (graft-graft (p ∷ rest) (find load below) (find load below)
            (find load (extension (p ∷ rest) child))
          ∙ fun_ext λ key. graft_self_extension p rest child below key e))
