-- ===== src/Rainblock/Content/Searching.antt =====
-- The loop of search in asb-authdb/rainblock-trie/src/rain_mpt.rs ends, and where.
use extended_hypertrie_authe.Prelude.{
  ℕ, zero, suc, ◌+◌, ◌<◌, [], ◌∷◌, ◌++◌, Option, none, some, true, false, ◌≡◌, inl, inr, refl, sym,
  ap, ◌∙◌, arith, length, list_beq, list_beq_iff, Bool-cases, Option-cases, length-append,
  All-append_right, subst,
}
use extended_hypertrie_authe.Rainblock.Nibble.{Nibbles, strip_prefix}
use extended_hypertrie_authe.Rainblock.Node.{
  TrieNode, leaf, branch, extension, owned, TrieNodeExt, ext, NodeCache, cache_of, child_at,
  set_child,
}
use extended_hypertrie_authe.Rainblock.Search.{Stack, next_of, search_loop, search, mark_loaded}
use extended_hypertrie_authe.Rainblock.Content.{
  find, resolve, IsBranch, AreNibbles, IsTrie, IsClosed,
}
use extended_hypertrie_authe.Rainblock.Content.Steps.{strip_prefix-append, group_length-set_child}
use extended_hypertrie_authe.Rainblock.Content.Frames.{path, Sits, AreFrames, around}
use extended_hypertrie_authe.Rainblock.Content.Rebuild.{
  AreTries-set_child, AreTries-child_at, Sits-with_child,
}
use extended_hypertrie_authe.Rainblock.Content.Found.{
  Found, Found-step, child_cases, next_of-branch, next_of-extension, around-branch,
  around-extension,
}
use mathlib.Core.List.{append_assoc}

module _ {H : Type 0} (load : H → Option (TrieNodeExt H)) (Known : H → Type 0) (n : ℕ)
    (closed : IsClosed load Known) where
  pub search_loop-Found :
      (fuel depth : ℕ) (node : TrieNode H) (cache : NodeCache H) (stack : Stack H)
      (nibbles : Nibbles)
      → length nibbles < fuel
      → AreFrames load Known stack
      → Sits (IsBranch load) node stack
      → IsTrie load Known node
      → AreNibbles load nibbles
      → Found load Known
          (search_loop load fuel n (ext node cache) stack nibbles depth)
          (around load Known stack (find load node))
          (path stack ++ nibbles)
  unfolding search_loop
  search_loop-Found zero depth node cache stack nibbles fuel f s t d = absurd (omega (arith, fuel))
  search_loop-Found (suc m) depth (leaf key value) cache stack nibbles fuel f s t d =
      elim (Bool-cases (list_beq key nibbles)) [
        | inl e ↦
            let here : key ≡ nibbles = (list_beq_iff key nibbles).0 e in
            record {
              last = leaf key value;
              cache = cache;
              stack = stack;
              is_match = true;
              remainder = [];
              place = key;
              returns = rw (next_of, e) refl;
              frames = f;
              sits = s;
              trie = t;
              nibbles = tt;
              ends = refl;
              placed = ap (λ (k : Nibbles). path stack ++ k) here;
              same = refl;
            }
        | inr e ↦ record {
          last = leaf key value;
          cache = cache;
          stack = stack;
          is_match = false;
          remainder = nibbles;
          place = nibbles;
          returns = rw (next_of, e) refl;
          frames = f;
          sits = s;
          trie = t;
          nibbles = d;
          ends = (refl, e);
          placed = refl;
          same = refl;
        }
      ]
  search_loop-Found (suc m) depth (branch children value) cache stack [] fuel f s t d = record {
    last = branch children value;
    cache = cache;
    stack = stack;
    is_match = true;
    remainder = [];
    place = [];
    returns = refl;
    frames = f;
    sits = s;
    trie = t;
    nibbles = tt;
    ends = refl;
    placed = refl;
    same = refl;
  }
  search_loop-Found (suc m) depth (branch children value) cache stack (i ∷ key) fuel f s t d =
      elim (child_cases load Known (child_at children i) closed
        (AreTries-child_at load Known children i t.1)) [
          | inl gone ↦ record {
            last = branch children value;
            cache = cache;
            stack = stack;
            is_match = false;
            remainder = i ∷ key;
            place = i ∷ key;
            returns = rw (next_of, gone) refl;
            frames = f;
            sits = s;
            trie = t;
            nibbles = d;
            ends = (refl, (i, key, refl, gone));
            placed = refl;
            same = refl;
          }
          | inr (below, c, read, e, there, trie) ↦
              let me = branch (set_child children i (owned (ext below c))) value in
              let marked = mark_loaded load n depth read (ext me cache) in
              let rest =
                search_loop-Found m (suc depth) below c ((marked, some i) ∷ stack) key
                  (omega (arith, fuel))
                  (
                    (
                      group_length-set_child children i (owned (ext below c)) ∙ t.0,
                      AreTries-set_child load Known children i (owned (ext below c)) t.1 trie,
                      d.0,
                    ),
                    Sits-with_child load Known (branch children value) i (owned (ext below c)) stack
                        s,
                    f,
                  )
                  tt trie d.1 in
              let same =
                around-branch load Known children value i c (cache_of marked) below stack
                  (t.0, t.1, d.0) there in
              Found-step load Known _ _ _ _ _ _ rest
                (rw (next_of-branch load Known n depth i children value cache c key below read e)
                  refl)
                same (append_assoc (path stack) (i ∷ []) key)
        ]
  search_loop-Found (suc m) depth (extension [] child) cache stack nibbles fuel f s t d =
      absurd (t.1 refl)
  search_loop-Found (suc m) depth (extension (p ∷ rest) child) cache stack nibbles fuel f s t d =
      elim (Option-cases (strip_prefix (p ∷ rest) nibbles)) [
        | inl gone ↦ record {
          last = extension (p ∷ rest) child;
          cache = cache;
          stack = stack;
          is_match = false;
          remainder = nibbles;
          place = nibbles;
          returns = rw (next_of, gone) refl;
          frames = f;
          sits = s;
          trie = t;
          nibbles = d;
          ends = (refl, gone);
          placed = refl;
          same = refl;
        }
        | inr (key, e) ↦ elim (child_cases load Known child closed t.2) [
          | inl gone ↦
              let nothing : resolve load child ≡ none = ap (resolve load) gone in
              let (node, e', b) = t.3 in cc
          | inr (below, c, read, found, there, trie) ↦
              let me = extension (p ∷ rest) (owned (ext below c)) in
              let marked = mark_loaded load n depth read (ext me cache) in
              let (node, e', b) = t.3 in
              let same_node : node ≡ below = cc in
              let split = strip_prefix-append (p ∷ rest) nibbles key e in
              let again =
                search_loop-Found m (suc depth) below c ((marked, some 0) ∷ stack) key
                  (omega (arith, fuel, ap length split, length-append rest key))
                  (
                    (refl, t.0, t.1),
                    Sits-with_child load Known (extension (p ∷ rest) child) 0 (owned (ext below c))
                        stack s,
                    f,
                  )
                  (subst (IsBranch load) same_node b) trie
                  (All-append_right (λ (i : ℕ). i < 16) (p ∷ rest) key
                    (subst (AreNibbles load) split d)) in
              let same =
                around-extension load Known p rest child c (cache_of marked) below stack
                  (refl, t.0, t.1) there in
              Found-step load Known _ _ _ _ _ _ again
                (rw
                  (next_of-extension load Known n depth (p ∷ rest) child cache c nibbles key below
                    read e found)
                  refl)
                same
                (append_assoc (path stack) (p ∷ rest) key
                  ∙ ap (λ (k : Nibbles). path stack ++ k) (sym split))
        ]
      ]

  -- A search in a tree returns, whatever the key: with the path to a node of the tree, what the key
  -- has left at the node, and whether the key ends there; the tree holds the same as before.
  pub search-Found :
      (node : TrieNode H) (cache : NodeCache H) (nibbles : Nibbles)
      → IsTrie load Known node
      → AreNibbles load nibbles
      → Found load Known (search load n (ext node cache) nibbles) (find load node) nibbles
  unfolding search
  search-Found node cache nibbles t d =
      search_loop-Found (length nibbles + 1) 1 node cache [] nibbles (omega arith) tt tt t d
