-- ===== src/Rainblock/Content/Changes.antt =====
-- A changed node put into its tree: the ends of put and del in
-- asb-authdb/rainblock-trie/src/rain_mpt.rs.
use extended_hypertrie_authe.Prelude.{
  ℕ, List, [], ◌∷◌, ◌++◌, Option, none, some, Bool, true, false, ◌≡◌, ◌≢◌, inl, inr, refl, sym, ap,
  ap₂, fun_ext, subst, ◌∙◌, length, list_beq, list_beq_iff, Bool-cases, if◌then◌else◌,
}
use extended_hypertrie_authe.Prelude.Options.{◌>>=◌}
use extended_hypertrie_authe.Serde.{Bytes}
use extended_hypertrie_authe.Rainblock.Nibble.{Nibbles}
use extended_hypertrie_authe.Rainblock.Node.{
  TrieNode, leaf, branch, extension, ChildRef, TrieNodeExt, ext, NodeCache, seal, value_of,
  set_value, deleted_digest,
}
use extended_hypertrie_authe.Rainblock.Search.{Stack, reset_pointers, recover_pointers}
use extended_hypertrie_authe.Rainblock.Ops.{MerklePatriciaTree, put_on_path, del_path}
use extended_hypertrie_authe.Rainblock.Content.{
  stored, look, find, find_child, IsBranch, AreNibbles, IsTrie, IsClosed,
}
use extended_hypertrie_authe.Rainblock.Content.Steps.{
  update, graft, find-extension, strip_prefix_self,
}
use extended_hypertrie_authe.Rainblock.Content.Frames.{
  edge, path, Sits, AreFrames, around, around-update,
}
use extended_hypertrie_authe.Rainblock.Content.Rebuild.{
  recover_pointers-IsRoot, reset_pointers-IsReset,
}
use extended_hypertrie_authe.Rainblock.Content.Found.{EndsAt}
use extended_hypertrie_authe.Rainblock.Content.Placed.{nothing, new_value}
use extended_hypertrie_authe.Rainblock.Content.Parted.{Inserts, find-leaf}
use extended_hypertrie_authe.Rainblock.Content.Inserted.{insert-Inserts}
use extended_hypertrie_authe.Rainblock.Content.Joined.{Rebuilds}
use extended_hypertrie_authe.Rainblock.Content.Removed.{remove-Removes}
use mathlib.Core.List.{append_assoc}

update_again :
    (x : Nibbles → Option Bytes) (k : Nibbles) (v w : Option Bytes)
    → update (update x k v) k w ≡ update x k w
update_again x k v w = fun_ext λ key. elim (Bool-cases (list_beq k key)) [
  | inl e ↦ rw (update, e) refl
  | inr e ↦ rw (update, e) refl
]

module _ {H : Type 0} (load : H → Option (TrieNodeExt H)) (Known : H → Type 0) where
  -- The tree holds nothing without a root.
  abbrev pub content : Option (TrieNodeExt H) → Nibbles → Option Bytes
  content none = nothing
  content (some (ext node cache)) = find load node

  abbrev pub IsRooted : Option (TrieNodeExt H) → Type 0
  IsRooted none = Unit
  IsRooted (some (ext node cache)) = IsTrie load Known node

  -- What stands at the end of a path is what the whole tree holds there.
  pub around_at :
      (stack : Stack H) (x : Nibbles → Option Bytes) (at : Nibbles)
      → around load Known stack x (path stack ++ at) ≡ x at
  around_at [] x at = refl
  around_at ((ext node c, none) ∷ stack) x at = around_at stack x at
  around_at ((ext node c, some i) ∷ stack) x at =
      let inner = graft (edge node i) x (find load node) in
      ap (around load Known stack inner) (append_assoc (path stack) (edge node i) at)
      ∙ (around_at stack inner (edge node i ++ at)
          ∙ rw (graft, strip_prefix_self (edge node i) at) refl)

  -- The value at the end of a search.
  pub ends_value :
      (is_match : Bool) (last : TrieNode H) (remainder place : Nibbles)
      → IsTrie load Known last
      → EndsAt is_match last remainder place
      → ((if is_match then value_of last else none) >>= stored) ≡ find load last place
  unfolding value_of look
  ends_value true (leaf k v) remainder place t e = rw e (rw ((list_beq_iff k k).1 refl) refl)
  ends_value true (branch c v) remainder place t e = rw e refl
  ends_value true (extension k c) remainder place t e = absurd e
  ends_value false (leaf k v) remainder place t e = rw e.0 (rw e.1 refl)
  ends_value false (branch c v) remainder place t e =
      let (same, (i, rest, r, gone)) = e in
      sym (
        ap (find load (branch c v)) (same ∙ r)
        ∙ ap (λ (x : ChildRef H). find_child load x rest) gone)
  ends_value false (extension [] c) remainder place t e = absurd (t.1 refl)
  ends_value false (extension (p ∷ k) c) remainder place t e = sym (
      ap (find load (extension (p ∷ k) c)) e.0
      ∙ (find-extension load p k c remainder ∙ rw e.1 refl))

  set_value-Inserts :
      (last : TrieNode H) (remainder place : Nibbles) (val : Bytes)
      → IsTrie load Known last
      → EndsAt true last remainder place
      → val ≢ []
      → (new : TrieNode H) × (set_value last val ≡ some new) × Inserts load Known last new place val
  unfolding set_value look list_beq
  set_value-Inserts (leaf k v) remainder place val t e full = (
    leaf k val,
    refl,
    (
      sym (
          ap₂ (λ (x : Nibbles → Option Bytes) (at : Nibbles). update x at (stored val))
            (find-leaf load Known k v) e
          ∙ update_again nothing k (stored v) (stored val)),
      (t.0, full),
      λ b. absurd b,
    ),
  )
  set_value-Inserts (branch c v) remainder place val t e full = (
    branch c val,
    refl,
    (
      fun_ext (new_value load Known c v val)
          ∙ ap (λ (k : Nibbles). update (find load (branch c v)) k (stored val)) (sym e),
      t,
      λ b. tt,
    ),
  )
  set_value-Inserts (extension k c) remainder place val t e full = absurd e

  Sits-new :
      (old new : TrieNode H) (stack : Stack H)
      → (IsBranch load old → IsBranch load new)
      → Sits (IsBranch load) old stack
      → Sits (IsBranch load) new stack
  Sits-new old new [] h s = tt
  Sits-new old new ((ext (leaf a b) c, i) ∷ stack) h s = absurd s
  Sits-new old new ((ext (branch a b) c, i) ∷ stack) h s = tt
  Sits-new old new ((ext (extension a b) c, i) ∷ stack) h s = h s

  -- What a change returns: a tree with the content `w`.
  abbrev pub Holds : Option (MerklePatriciaTree H) → (Nibbles → Option Bytes) → Type 0
  Holds result w =
      (new : MerklePatriciaTree H) × (result ≡ some new)
      × IsRooted new.root
      × (content new.root ≡ w)

  -- The new node of a path, put into the tree.
  abbrev pub Recovers : Stack H → (Nibbles → Option Bytes) → Type 0
  Recovers stack w =
      (root : Option (TrieNodeExt H)) × (digests : List H) × (recover_pointers none stack
        ≡ some (root, digests))
      × IsRooted root
      × (content root ≡ w)

  recover_pointers-Recovers :
      (stack : Stack H) (w : Nibbles → Option Bytes)
      → Rebuilds load Known stack w
      → Recovers stack w
  unfolding recover_pointers
  recover_pointers-Recovers [] w h = (none, [], refl, tt, sym h)
  recover_pointers-Recovers ((ext node c, some i) ∷ stack) w h = absurd h
  recover_pointers-Recovers ((ext node c, none) ∷ stack) w (f, s, t, same) =
      let (root, c', digests, e, (found, trie)) =
        recover_pointers-IsRoot load Known node c stack f s t in
      (some (ext root c'), digests, e, trie, found ∙ same)

  EndsAt-place :
      (last : TrieNode H) (remainder place : Nibbles)
      → EndsAt false last remainder place
      → place ≡ remainder
  EndsAt-place (leaf k v) remainder place e = e.0
  EndsAt-place (branch c v) remainder place e = e.0
  EndsAt-place (extension k c) remainder place e = e.0

  put_new :
      (stack cut : Stack H) (last new : TrieNode H) (place : Nibbles) (val : Bytes)
      → AreFrames load Known stack
      → Sits (IsBranch load) last stack
      → ((x : Nibbles → Option Bytes) → around load Known cut x ≡ around load Known stack x)
      → path cut ≡ path stack
      → AreFrames load Known cut
      → ((y : TrieNode H) → Sits (IsBranch load) y stack → Sits (IsBranch load) y cut)
      → Inserts load Known last new place val
      → Recovers
          ((seal new, none) ∷ cut)
          (update (around load Known stack (find load last)) (path stack ++ place) (stored val))
  put_new stack cut last new place val f s same paths frames sits (found, trie, branches) =
      let v = stored val in
      let around_new =
        ap (around load Known cut) found
        ∙ (around-update load Known cut (find load last) place v
            ∙ ap₂ (λ (x : Nibbles → Option Bytes) (p : Nibbles). update x (p ++ place) v)
                (same (find load last)) paths) in
      recover_pointers-Recovers ((seal new, none) ∷ cut)
        (update (around load Known stack (find load last)) (path stack ++ place) v)
        (frames, Sits-new last new cut branches (sits last s), trie, around_new)

  module _ (closed : IsClosed load Known) (n : ℕ) where
    pub put_on_path-Holds :
        (t : MerklePatriciaTree H) (is_match : Bool) (last : TrieNode H) (c : NodeCache H)
        (stack : Stack H) (remainder place : Nibbles) (val : Bytes)
        → AreFrames load Known stack
        → Sits (IsBranch load) last stack
        → IsTrie load Known last
        → AreNibbles load remainder
        → EndsAt is_match last remainder place
        → val ≢ []
        → Holds
            (put_on_path load n t ((ext last c, none) ∷ stack) is_match remainder val)
            (update (around load Known stack (find load last)) (path stack ++ place) (stored val))
    unfolding put_on_path reset_pointers
    put_on_path-Holds t true last c stack remainder place val f s trie d ends full =
        let (cut, reset, resets, (frames, same, paths, sits)) =
          reset_pointers-IsReset load Known stack f in
        let (new, set, inserts) = set_value-Inserts last remainder place val trie ends full in
        let (root, recovered, recovers, rooted, held) =
          put_new stack cut last new place val f s same paths frames sits inserts in
        (
          record {
            root = root;
            del_ops = t.del_ops ++ reset ++ deleted_digest (ext last c) ++ [] ++ recovered;
          },
          rw resets (rw set (rw recovers refl)),
          rooted,
          held,
        )
    put_on_path-Holds t false last c stack remainder place val f s trie d ends full =
        let (cut, reset, resets, (frames, same, paths, sits)) =
          reset_pointers-IsReset load Known stack f in
        let (new, inserted, runs, inserts) =
          insert-Inserts load Known n last remainder place val (length cut) closed trie d ends
            full in
        let at = sym (EndsAt-place last remainder place ends) in
        let (root, recovered, recovers, rooted, held) =
          put_new stack cut last new place val f s same paths frames sits
            (subst (λ (k : Nibbles). Inserts load Known last new k val) at inserts) in
        (
          record {
            root = root;
            del_ops = t.del_ops ++ reset ++ deleted_digest (ext last c) ++ inserted ++ recovered;
          },
          rw resets (rw runs (rw recovers refl)),
          rooted,
          held,
        )

    pub del_path-Holds :
        (t : MerklePatriciaTree H) (last : TrieNode H) (c : NodeCache H) (stack : Stack H)
        (remainder place : Nibbles)
        → AreFrames load Known stack
        → Sits (IsBranch load) last stack
        → IsTrie load Known last
        → EndsAt true last remainder place
        → Holds
            (del_path load n t ((ext last c, none) ∷ stack))
            (update (around load Known stack (find load last)) (path stack ++ place) none)
    unfolding del_path reset_pointers
    del_path-Holds t last c stack remainder place f s trie ends =
        let (cut, reset, resets, (frames, same, paths, sits)) =
          reset_pointers-IsReset load Known stack f in
        let (new, removed, removes, rebuilds) =
          remove-Removes load Known last c cut remainder place closed trie frames (sits last s)
            ends in
        let (root, recovered, recovers, rooted, held) = recover_pointers-Recovers new _ rebuilds in
        let around_new =
          around-update load Known cut (find load last) place none
          ∙ ap₂ (λ (x : Nibbles → Option Bytes) (p : Nibbles). update x (p ++ place) none)
              (same (find load last)) paths in
        (
          record { root = root; del_ops = t.del_ops ++ reset ++ removed ++ recovered },
          rw resets (rw removes (rw recovers refl)),
          rooted,
          held ∙ around_new,
        )
