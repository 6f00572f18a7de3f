-- ===== src/Rainblock/Codec/Sound/Paths.antt =====
-- The path of a search in asb-authdb/rainblock-trie: every node on it has the right caches, and
-- takes a child with the encoding of the next node without a change of its own.
use extended_hypertrie_authe.Prelude.{
  ℕ, zero, suc, ◌+◌, [], ◌∷◌, Option, none, some, Bool, true, false, ◌≡◌, refl, sym, subst, length,
}
use extended_hypertrie_authe.Prelude.Options.{Ensures, Ensures-bind, Ensures-both}
use extended_hypertrie_authe.Serde.{Bytes}
use extended_hypertrie_authe.Merkle.Hashing.{HashLib}
use extended_hypertrie_authe.Rainblock.Nibble.{Nibbles}
use extended_hypertrie_authe.Rainblock.Node.{
  TrieNode, owned, TrieNodeExt, ext, NodeCache, set_child_of,
}
use extended_hypertrie_authe.Rainblock.Search.{
  NextResult, matched, not_matched, next, Stack, SearchResult, next_of, search_loop, search, settle,
}
use extended_hypertrie_authe.Rainblock.Rlp.{Rlp}
use extended_hypertrie_authe.Rainblock.Codec.{encode, Fits, IsCoherent}
use extended_hypertrie_authe.Rainblock.Codec.Sound.{IsSound, set_child_of-IsCoherent}
use extended_hypertrie_authe.Rainblock.Codec.Sound.Steps.{
  Holds, is_empty, AreSlots, StepsFrom, next_of-StepsFrom,
}

module _ (lib : HashLib) (rlp : Rlp) where
  module _ (load : lib.H256 → Option (TrieNodeExt lib.H256)) (sound : IsSound lib rlp load)
      (n : ℕ) where
    -- The path of a search that has ended.
    abbrev pub AreHeld : Bytes → Stack lib.H256 → Type 0
    AreHeld whole [] = Unit
    AreHeld whole ((ext node cache, none) ∷ stack) =
        (Holds lib rlp) (is_empty lib rlp stack) (encode lib rlp node) (ext node cache)
        × AreSlots lib rlp whole stack (encode lib rlp node)
    AreHeld whole ((ext node cache, some idx) ∷ stack) = ⊥

    abbrev pub Searched : Bytes → SearchResult lib.H256 → Type 0
    Searched whole result = AreHeld whole result.stack

    ends-Searched :
        (whole own : Bytes) (me : TrieNodeExt lib.H256) (stack : Stack lib.H256) (is_match : Bool)
        (rest : Nibbles)
        → Holds lib rlp (is_empty lib rlp stack) own me
        → AreSlots lib rlp whole stack own
        → Searched whole
            (record { stack = (me, none) ∷ stack; is_match = is_match; remainder = rest })
    ends-Searched whole own (ext node cache) stack is_match rest (coherent, fits, e) slots =
        ((coherent, fits, refl), subst (AreSlots lib rlp whole stack) (sym e) slots)

    -- The end of one round of a search, where the next round is right.
    after_step :
        (fuel : ℕ) (whole own : Bytes) (stack : Stack lib.H256) (depth : ℕ)
        → AreSlots lib rlp whole stack own
        → ((next_own : Bytes) (node : TrieNodeExt lib.H256) (path : Stack lib.H256) (rest : Nibbles)
            → Holds lib rlp (is_empty lib rlp path) next_own node
            → AreSlots lib rlp whole path next_own
            → Ensures (Searched whole) (search_loop load fuel n node path rest (suc depth)))
        → (step : NextResult lib.H256 × (TrieNodeExt lib.H256 × Nibbles))
        → StepsFrom lib rlp (is_empty lib rlp stack) own step
        → Ensures (Searched whole) (elim step.0 [
          | matched ↦
              some
                (record { stack = (step.1.0, none) ∷ stack; is_match = true; remainder = step.1.1 })
          | not_matched ↦
              some (record {
                stack = (step.1.0, none) ∷ stack;
                is_match = false;
                remainder = step.1.1;
              })
          | next node' pos ↦
              search_loop load fuel n node' ((step.1.0, some pos) ∷ stack) step.1.1 (suc depth)
        ])
    after_step fuel whole own stack depth slots again (matched, (me, rest)) h =
        ends-Searched whole own me stack true rest h slots
    after_step fuel whole own stack depth slots again (not_matched, (me, rest)) h =
        ends-Searched whole own me stack false rest h slots
    after_step fuel whole own stack depth slots again
          (next (ext below c) pos, (ext node cache, rest)) ((coherent, fits, e), held, slot) =
        again (encode lib rlp below) (ext below c) ((ext node cache, some pos) ∷ stack) rest held
          ((coherent, fits, refl), slot, subst (AreSlots lib rlp whole stack) (sym e) slots)

    search_loop-Searched :
        (fuel : ℕ) (whole own : Bytes) (me : TrieNodeExt lib.H256) (stack : Stack lib.H256)
        (nibbles : Nibbles) (depth : ℕ)
        → Holds lib rlp (is_empty lib rlp stack) own me
        → AreSlots lib rlp whole stack own
        → Ensures (Searched whole) (search_loop load fuel n me stack nibbles depth)
    unfolding search_loop
    search_loop-Searched zero whole own me stack nibbles depth h slots = tt
    search_loop-Searched (suc fuel) whole own me stack nibbles depth h slots =
        Ensures-bind (StepsFrom lib rlp (is_empty lib rlp stack) own) (Searched whole)
          (next_of load n me nibbles depth) _
          (next_of-StepsFrom lib rlp load sound n (is_empty lib rlp stack) own me nibbles depth h)
          (after_step fuel whole own stack depth slots λ next_own node path rest held slots'.
            search_loop-Searched fuel whole next_own node path rest (suc depth) held slots')

    pub search-Searched :
        (whole : Bytes) (root : TrieNodeExt lib.H256) (nibbles : Nibbles)
        → Holds lib rlp true whole root
        → Ensures (Searched whole) (search load n root nibbles)
    unfolding search
    search-Searched whole root nibbles h =
        search_loop-Searched (length nibbles + 1) whole whole root [] nibbles 1 h refl

  -- The root of a path that is not changed.
  settle-slots :
      (whole : Bytes) (stack : Stack lib.H256) (node : TrieNode lib.H256)
      (cache : NodeCache lib.H256)
      → Holds lib rlp (is_empty lib rlp stack) (encode lib rlp node) (ext node cache)
      → AreSlots lib rlp whole stack (encode lib rlp node)
      → Ensures (Holds lib rlp true whole) (settle (some (ext node cache)) stack)
  unfolding settle
  settle-slots whole [] node cache h slots = (h.0, h.1, slots)
  settle-slots whole ((ext above c, none) ∷ stack) node cache h slots = absurd slots
  settle-slots whole ((ext above c, some idx) ∷ stack) node cache (coherent, fits, e)
        ((above_coherent, above_fits, own), slot, slots) =
      let child = owned (ext node cache) in
      let Kept = λ (after : TrieNode lib.H256). encode lib rlp after ≡ encode lib rlp above in
      Ensures-bind (λ (after : TrieNode lib.H256). Kept after × IsCoherent lib rlp after)
        (Holds lib rlp true whole) (set_child_of above idx child)
        (λ (after : TrieNode lib.H256). settle (some (ext after c)) stack)
        (Ensures-both Kept (IsCoherent lib rlp) (set_child_of above idx child) (slot child refl)
          (set_child_of-IsCoherent lib rlp above idx child above_coherent (coherent, fits)))
        λ after kept.
          settle-slots whole stack after c
            (
              kept.1,
              subst (λ (b : Bytes). Fits lib rlp (is_empty lib rlp stack) c.rlp_encode c b)
                  (sym kept.0) above_fits,
              refl,
            )
            (subst (AreSlots lib rlp whole stack) (sym kept.0) slots)

  module _ (load : lib.H256 → Option (TrieNodeExt lib.H256)) (sound : IsSound lib rlp load)
      (n : ℕ) where
    pub settle-Holds :
        (whole : Bytes) (stack : Stack lib.H256)
        → AreHeld load sound n whole stack
        → Ensures (Holds lib rlp true whole) (settle none stack)
    unfolding settle
    settle-Holds whole [] h = tt
    settle-Holds whole ((ext node cache, some idx) ∷ stack) h = absurd h
    settle-Holds whole ((ext node cache, none) ∷ stack) h =
        settle-slots whole stack node cache h.0 h.1
