-- ===== src/Rainblock/Content/Inserted.antt =====
-- insert of asb-authdb/rainblock-trie/src/rain_mpt.rs adds one key.
use extended_hypertrie_authe.Prelude.{
  ℕ, List, [], Option, some, false, ◌≡◌, ◌≢◌, refl, sym, ap, subst, ◌∙◌,
}
use extended_hypertrie_authe.Serde.{Bytes}
use extended_hypertrie_authe.Rainblock.Nibble.{Nibbles}
use extended_hypertrie_authe.Rainblock.Node.{
  TrieNode, leaf, branch, extension, owned, TrieNodeExt, seal, set_child,
}
use extended_hypertrie_authe.Rainblock.Insert.{insert, insert_on_branch, insert_on_leaf}
use extended_hypertrie_authe.Rainblock.Content.{stored, find, AreNibbles, IsTrie, IsClosed}
use extended_hypertrie_authe.Rainblock.Content.Steps.{update, group_length-set_child}
use extended_hypertrie_authe.Rainblock.Content.Rebuild.{AreTries-set_child}
use extended_hypertrie_authe.Rainblock.Content.Found.{EndsAt}
use extended_hypertrie_authe.Rainblock.Content.Placed.{find-new_leaf}
use extended_hypertrie_authe.Rainblock.Content.Parted.{Inserts, insert_on_leaf-Inserts}
use extended_hypertrie_authe.Rainblock.Content.Cut.{insert_on_extension-Inserts}

module _ {H : Type 0} (load : H → Option (TrieNodeExt H)) (Known : H → Type 0) where
  -- At the node where a search for a key ends without a match, `insert` returns a node that holds
  -- the value at what is left of the key, and at every other key what the old node holds.
  pub insert-Inserts :
      (n : ℕ) (node : TrieNode H) (remainder place : Nibbles) (val : Bytes) (depth : ℕ)
      → IsClosed load Known
      → IsTrie load Known node
      → AreNibbles load remainder
      → EndsAt false node remainder place
      → val ≢ []
      → (new : TrieNode H) × (digests : List H) × (insert load n node remainder val depth
          ≡ some (new, digests))
        × Inserts load Known node new remainder val
  unfolding insert insert_on_branch
  insert-Inserts n (leaf key value) remainder place val depth closed t d ends full = (
    insert_on_leaf key value remainder val,
    [],
    refl,
    insert_on_leaf-Inserts load Known key value remainder val t d ends.1 full,
  )
  insert-Inserts n (extension key child) remainder place val depth closed t d ends full =
      insert_on_extension-Inserts load Known n key child remainder val depth closed t d ends.1 full
  insert-Inserts n (branch children value) remainder place val depth closed t d ends full =
      let (same, (i, rest, e, gone)) = ends in
      let d' = subst (AreNibbles load) e d in
      let new = set_child children i (owned (seal (leaf rest val))) in
      (
        branch new value,
        [],
        rw e (rw (insert_on_branch, gone) refl),
        (
          find-new_leaf load Known children value i rest val (t.0, t.1, d'.0) gone
              ∙ ap (λ (k : Nibbles). update (find load (branch children value)) k (stored val))
                  (sym e),
          (
            group_length-set_child children i (owned (seal (leaf rest val))) ∙ t.0,
            AreTries-set_child load Known children i (owned (seal (leaf rest val))) t.1
                (d'.1, full),
          ),
          λ b. tt,
        ),
      )
