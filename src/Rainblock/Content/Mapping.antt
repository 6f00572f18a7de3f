-- ===== src/Rainblock/Content/Mapping.antt =====
-- A tree is a partial map from keys to values: get, put and del of
-- asb-authdb/rainblock-trie/src/rain_mpt.rs.
use extended_hypertrie_authe.Prelude.{
  ℕ, List, ◌∷◌, ◌++◌, Option, none, some, Bool, true, false, ◌≡◌, inl, inr, refl, sym, ap, ap₂,
  fun_ext, subst, ◌∙◌, list_beq, list_beq_iff, Bool-cases, if◌then◌else◌,
}
use extended_hypertrie_authe.Prelude.Options.{◌>>=◌}
use extended_hypertrie_authe.Serde.{Bytes}
use extended_hypertrie_authe.Rainblock.Nibble.{Nibbles, bytes_to_nibble_list}
use extended_hypertrie_authe.Rainblock.Node.{TrieNode, TrieNodeExt, ext, NodeCache, value_of}
use extended_hypertrie_authe.Rainblock.Search.{Stack, SearchResult, search, settle}
use extended_hypertrie_authe.Rainblock.Ops.{
  MerklePatriciaTree, matched_value, has_value, get, del, put,
}
use extended_hypertrie_authe.Rainblock.Content.{stored, find, IsTrie, IsClosed}
use extended_hypertrie_authe.Rainblock.Content.Steps.{update}
use extended_hypertrie_authe.Rainblock.Content.Frames.{path, around}
use extended_hypertrie_authe.Rainblock.Content.Rebuild.{settle-IsRoot}
use extended_hypertrie_authe.Rainblock.Content.Found.{EndsAt, Found}
use extended_hypertrie_authe.Rainblock.Content.Searching.{search-Found}
use extended_hypertrie_authe.Rainblock.Content.Keys.{AreBytes, bytes_to_nibble_list-AreNibbles}
use extended_hypertrie_authe.Rainblock.Content.Changes.{
  content, IsRooted, around_at, ends_value, Holds, put_on_path-Holds, del_path-Holds,
}
use mathlib.Core.List.{append_assoc}

update_same :
    (x : Nibbles → Option Bytes) (k : Nibbles) (w : Option Bytes) → x k ≡ w → update x k w ≡ x
update_same x k w h = fun_ext λ key. elim (Bool-cases (list_beq k key)) [
  | inl e ↦ rw (update, e) (sym h ∙ ap x ((list_beq_iff k key).0 e))
  | inr e ↦ rw (update, e) refl
]

has_value-some : (o : Option Bytes) (val : Bytes) → has_value o val ≡ true → o ≡ some val
has_value-some none val h = cc
has_value-some (some v) val h = ap some ((list_beq_iff v val).0 h)

module _ {H : Type 0} (load : H → Option (TrieNodeExt H)) (Known : H → Type 0) where
  matched_value_lem :
      (is_match : Bool) (last : TrieNode H) (c : NodeCache H) (stack : Stack H)
      (remainder : Nibbles)
      → matched_value (record {
        stack = (ext last c, none) ∷ stack;
        is_match = is_match;
        remainder = remainder;
      })
        ≡ (if is_match then value_of last else none)
  unfolding matched_value
  matched_value_lem true last c stack remainder = refl
  matched_value_lem false last c stack remainder = refl

  module _ (closed : IsClosed load Known) (n : ℕ) where
    -- What a search finds is what the tree holds, and the tree with the nodes that were read
    -- holds the same.
    module _ (node : TrieNode H) (key : Nibbles) {result : Option (SearchResult H)}
        (f : Found load Known result (find load node) key) where
      abbrev end : SearchResult H
      end = record {
        stack = (ext f.last f.cache, none) ∷ f.stack;
        is_match = f.is_match;
        remainder = f.remainder;
      }

      pub at_key : find load f.last f.place ≡ find load node key
      at_key =
          sym (around_at load Known f.stack (find load f.last) f.place)
          ∙ (ap (around load Known f.stack (find load f.last)) f.placed
              ∙ ap (λ (x : Nibbles → Option Bytes). x key) f.same)

      pub below_key : (s : Nibbles) → find load f.last (f.place ++ s) ≡ find load node (key ++ s)
      below_key s =
          sym (around_at load Known f.stack (find load f.last) (f.place ++ s))
          ∙ (ap (around load Known f.stack (find load f.last)) (
                sym (append_assoc (path f.stack) f.place s) ∙ ap (λ (k : Nibbles). k ++ s) f.placed)
              ∙ ap (λ (x : Nibbles → Option Bytes). x (key ++ s)) f.same)

      found_value : (matched_value end >>= stored) ≡ find load node key
      found_value =
          ap (λ (o : Option Bytes). o >>= stored)
            (matched_value_lem f.is_match f.last f.cache f.stack f.remainder)
          ∙ (ends_value load Known f.is_match f.last f.remainder f.place f.trie f.ends ∙ at_key)

      missed : f.is_match ≡ false → matched_value end ≡ none
      missed m = matched_value_lem f.is_match f.last f.cache f.stack f.remainder ∙ rw m refl

      settled :
          (root : TrieNode H) × (c : NodeCache H) × (settle none end.stack ≡ some (ext root c))
          × (find load root ≡ find load node)
          × IsTrie load Known root
      unfolding settle
      settled =
          let (root, c, e, (found, trie)) =
            settle-IsRoot load Known f.last f.cache f.stack f.frames f.sits f.trie in
          (root, c, e, found ∙ f.same, trie)

    abbrev pub tree : TrieNode H → NodeCache H → List H → MerklePatriciaTree H
    tree node c ops = record { root = some (ext node c); del_ops = ops }

    -- A search for a key that `get` is called with.
    abbrev pub Searched : TrieNode H → NodeCache H → Bytes → Type 0
    Searched node c key =
        Found load Known (search load n (ext node c) (bytes_to_nibble_list key)) (find load node)
          (bytes_to_nibble_list key)

    pub searched :
        (node : TrieNode H) (c : NodeCache H) (key : Bytes)
        → IsTrie load Known node
        → AreBytes key
        → Searched node c key
    searched node c key trie bytes =
        search-Found load Known n closed node c (bytes_to_nibble_list key) trie
          (bytes_to_nibble_list-AreNibbles key bytes)

    -- `get` returns the value of the node in which the search ends.
    pub get_returns :
        (ops : List H) (node : TrieNode H) (c : NodeCache H) (b : ℕ) (key : Bytes)
        (f : Searched node c (b ∷ key))
        → (root : TrieNode H) × (c' : NodeCache H) × (get load n (tree node c ops) (b ∷ key)
            ≡ some ((if f.is_match then value_of f.last else none), tree root c' ops))
          × (find load root ≡ find load node)
          × IsTrie load Known root
    unfolding get
    get_returns ops node c b key f =
        let (root, c', settles, same, trie) = settled node (bytes_to_nibble_list (b ∷ key)) f in
        (
          root,
          c',
          rw f.returns (
              rw settles
                (rw (matched_value_lem f.is_match f.last f.cache f.stack f.remainder) refl)),
          same,
          trie,
        )

    pub get_nibbles :
        (ops : List H) (node : TrieNode H) (c : NodeCache H) (b : ℕ) (key : Bytes)
        → IsTrie load Known node
        → AreBytes (b ∷ key)
        → (r : Option Bytes) × (new : MerklePatriciaTree H) × (get load n
              (tree node c ops)
              (b ∷ key)
            ≡ some (r, new))
          × ((r >>= stored) ≡ find load node (bytes_to_nibble_list (b ∷ key)))
          × IsRooted load Known new.root
          × (content load Known new.root ≡ find load node)
    get_nibbles ops node c b key trie bytes =
        let nibbles = bytes_to_nibble_list (b ∷ key) in
        let f = searched node c (b ∷ key) trie bytes in
        let (root, c', runs, same, trie') = get_returns ops node c b key f in
        (
          (if f.is_match then value_of f.last else none),
          tree root c' ops,
          runs,
          ends_value load Known f.is_match f.last f.remainder f.place f.trie f.ends
              ∙ at_key node nibbles f,
          trie',
          same,
        )

    pub del_nibbles :
        (ops : List H) (node : TrieNode H) (c : NodeCache H) (key : Bytes)
        → IsTrie load Known node
        → AreBytes key
        → Holds load Known
            (del load n (tree node c ops) key)
            (update (find load node) (bytes_to_nibble_list key) none)
    unfolding del
    del_nibbles ops node c key trie bytes =
        let nibbles = bytes_to_nibble_list key in
        let f =
          search-Found load Known n closed node c nibbles trie
            (bytes_to_nibble_list-AreNibbles key bytes) in
        elim (Bool-cases f.is_match) [
          | inl m ↦
              let ends = subst (λ (b : Bool). EndsAt b f.last f.remainder f.place) m f.ends in
              let (new, runs, rooted, held) =
                del_path-Holds load Known closed n (tree node c ops) f.last f.cache f.stack
                  f.remainder f.place f.frames f.sits f.trie ends in
              (
                new,
                rw f.returns (rw m runs),
                rooted,
                held
                    ∙ ap₂ (λ (x : Nibbles → Option Bytes) (k : Nibbles). update x k none) f.same
                        f.placed,
              )
          | inr m ↦
              let (root, c', settles, same, trie') = settled node nibbles f in
              let absent : find load node nibbles ≡ none =
                sym (found_value node nibbles f)
                ∙ ap (λ (o : Option Bytes). o >>= stored) (missed node nibbles f m) in
              (
                tree root c' ops,
                rw f.returns (rw m (rw settles refl)),
                trie',
                same ∙ sym (update_same (find load node) nibbles none absent),
              )
        ]

    pub put_nibbles :
        (ops : List H) (node : TrieNode H) (c : NodeCache H) (b : ℕ) (key : Bytes) (v : ℕ)
        (val : Bytes)
        → IsTrie load Known node
        → AreBytes (b ∷ key)
        → Holds load Known
            (put load n (tree node c ops) (b ∷ key) (v ∷ val))
            (update (find load node) (bytes_to_nibble_list (b ∷ key)) (some (v ∷ val)))
    unfolding put
    put_nibbles ops node c b key v val trie bytes =
        let nibbles = bytes_to_nibble_list (b ∷ key) in
        let digits = bytes_to_nibble_list-AreNibbles (b ∷ key) bytes in
        let f = search-Found load Known n closed node c nibbles trie digits in
        elim (Bool-cases (has_value (matched_value (end node nibbles f)) (v ∷ val))) [
          | inl m ↦
              let (root, c', settles, same, trie') = settled node nibbles f in
              let present : find load node nibbles ≡ some (v ∷ val) =
                sym (found_value node nibbles f)
                ∙ ap (λ (o : Option Bytes). o >>= stored)
                    (has_value-some (matched_value (end node nibbles f)) (v ∷ val) m) in
              (
                tree root c' ops,
                rw f.returns (rw m (rw settles refl)),
                trie',
                same ∙ sym (update_same (find load node) nibbles (some (v ∷ val)) present),
              )
          | inr m ↦
              let (new, runs, rooted, held) =
                put_on_path-Holds load Known closed n (tree node c ops) f.is_match f.last f.cache
                  f.stack f.remainder f.place (v ∷ val) f.frames f.sits f.trie f.nibbles f.ends
                  (λ eq. cc) in
              (
                new,
                rw f.returns (rw m runs),
                rooted,
                held
                    ∙ ap₂
                        (λ (x : Nibbles → Option Bytes) (k : Nibbles). update x k (some (v ∷ val)))
                        f.same f.placed,
              )
        ]
