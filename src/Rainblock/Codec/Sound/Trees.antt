-- ===== src/Rainblock/Codec/Sound/Trees.antt =====
-- get, put and del of asb-authdb/rainblock-trie/src/rain_mpt.rs keep the caches of the tree right.
use extended_hypertrie_authe.Prelude.{ℕ, List, [], ◌∷◌, Option, none, some, ◌≡◌, ◌≢◌, refl}
use extended_hypertrie_authe.Prelude.Options.{
  ◌>>=◌, Ensures, Ensures-bind, Ensures-if, Ensures-some,
}
use extended_hypertrie_authe.Serde.{Bytes}
use extended_hypertrie_authe.Merkle.Hashing.{HashLib}
use extended_hypertrie_authe.Rainblock.Nibble.{Nibbles, bytes_to_nibble_list}
use extended_hypertrie_authe.Rainblock.Node.{TrieNode, TrieNodeExt, ext, NodeCache}
use extended_hypertrie_authe.Rainblock.Search.{Stack, SearchResult, search, settle}
use extended_hypertrie_authe.Rainblock.Ops.{
  MerklePatriciaTree, has_value, matched_value, get, del, put,
}
use extended_hypertrie_authe.Rainblock.Rlp.{Rlp}
use extended_hypertrie_authe.Rainblock.Codec.{encode, IsCoherentRoot}
use extended_hypertrie_authe.Rainblock.Codec.Sound.{IsSound}
use extended_hypertrie_authe.Rainblock.Codec.Sound.Stores.{KeepsNodes, load_from-IsSound}
use extended_hypertrie_authe.Rainblock.Commits.{load_from}
use extended_hypertrie_authe.Storage.Backend.{KeyValueDb}
use extended_hypertrie_authe.Rainblock.Codec.Sound.Paths.{
  AreHeld, Searched, search-Searched, settle-Holds,
}
use extended_hypertrie_authe.Rainblock.Content.{IsClosed}
use extended_hypertrie_authe.Rainblock.Content.Keys.{AreBytes}
use extended_hypertrie_authe.Rainblock.Content.Refines.{IsTree, put-holds, get-holds}
use extended_hypertrie_authe.Rainblock.Codec.Sound.Changes.{
  RootCoherent, IsCoherentTree, held-RootCoherent, put_on_path-IsCoherentTree,
  del_path-IsCoherentTree,
}

module _ (lib : HashLib) (rlp : Rlp) where
  module _ (load : lib.H256 → Option (TrieNodeExt lib.H256)) (sound : IsSound lib rlp load)
      (n : ℕ) where
    settled :
        (whole : Bytes) (stack : Stack lib.H256)
        → AreHeld lib rlp load sound n whole stack
        → RootCoherent lib rlp (settle none stack)
    settled whole stack h =
        (held-RootCoherent lib rlp) whole (settle none stack)
          (settle-Holds lib rlp load sound n whole stack h)

    -- The rest of a call that starts with a search from the root.
    searching :
        (root : TrieNode lib.H256) (cache : NodeCache lib.H256) (nibbles : Nibbles)
        (then_do : SearchResult lib.H256 → Option (MerklePatriciaTree lib.H256))
        → IsCoherentRoot lib rlp (ext root cache)
        → ((whole : Bytes) (r : SearchResult lib.H256)
            → AreHeld lib rlp load sound n whole r.stack
            → Ensures (IsCoherentTree lib rlp) (then_do r))
        → Ensures (IsCoherentTree lib rlp) (search load n (ext root cache) nibbles >>= then_do)
    searching root cache nibbles then_do h next =
        let whole = encode lib rlp root in
        Ensures-bind (Searched lib rlp load sound n whole) (IsCoherentTree lib rlp)
          (search load n (ext root cache) nibbles) then_do
          (search-Searched lib rlp load sound n whole (ext root cache) nibbles (h.0, h.1, refl))
          (next whole)

    del_rooted :
        (root : Option (TrieNodeExt lib.H256)) (ops : List lib.H256) (key : Bytes)
        → RootCoherent lib rlp root
        → Ensures (IsCoherentTree lib rlp) (del load n (record { root = root; del_ops = ops }) key)
    unfolding del
    del_rooted none ops key h = tt
    del_rooted (some (ext root cache)) ops key h =
        let t : MerklePatriciaTree lib.H256 = record {
          root = some (ext root cache);
          del_ops = ops;
        } in
        searching root cache (bytes_to_nibble_list key) _ h λ whole r held.
          Ensures-if (IsCoherentTree lib rlp) r.is_match _ _
            (del_path-IsCoherentTree lib rlp load sound n t whole r.stack held)
            (settled whole r.stack held)

    put_rooted :
        (root : Option (TrieNodeExt lib.H256)) (ops : List lib.H256) (key val : Bytes)
        → RootCoherent lib rlp root
        → Ensures
            (IsCoherentTree lib rlp)
            (put load n (record { root = root; del_ops = ops }) key val)
    unfolding put
    put_rooted root ops [] val h = tt
    put_rooted root ops (b ∷ key) [] h = del_rooted root ops (b ∷ key) h
    put_rooted none ops (b ∷ key) (v ∷ val) h = (tt, (refl, refl))
    put_rooted (some (ext root cache)) ops (b ∷ key) (v ∷ val) h =
        let t : MerklePatriciaTree lib.H256 = record {
          root = some (ext root cache);
          del_ops = ops;
        } in
        searching root cache (bytes_to_nibble_list (b ∷ key)) _ h λ whole r held.
          Ensures-if (IsCoherentTree lib rlp) (has_value (matched_value r) (v ∷ val)) _ _
            (settled whole r.stack held)
            (put_on_path-IsCoherentTree lib rlp load sound n t whole r.stack r.is_match r.remainder
              (v ∷ val) held)

    -- The tree that a read leaves.
    abbrev ReadTree : Option Bytes × MerklePatriciaTree lib.H256 → Type 0
    ReadTree r = IsCoherentTree lib rlp r.1

    get_rooted :
        (root : Option (TrieNodeExt lib.H256)) (ops : List lib.H256) (key : Bytes)
        → RootCoherent lib rlp root
        → Ensures ReadTree (get load n (record { root = root; del_ops = ops }) key)
    unfolding get
    get_rooted root ops [] h = tt
    get_rooted none ops (b ∷ key) h = tt
    get_rooted (some (ext root cache)) ops (b ∷ key) h =
        let whole = encode lib rlp root in
        Ensures-bind (Searched lib rlp load sound n whole) ReadTree
          (search load n (ext root cache) (bytes_to_nibble_list (b ∷ key))) _
          (search-Searched lib rlp load sound n whole (ext root cache)
            (bytes_to_nibble_list (b ∷ key)) (h.0, h.1, refl))
          λ r held. settled whole r.stack held

    -- With a database that reads at a hash only nodes with that hash, an encoding of 32 bytes or
    -- more and right caches, and in a tree whose caches are right, `put` of a key that is not empty
    -- returns a tree whose caches are right: no cached encoding, hash or mark of a node outlives a
    -- change below it.
    pub put-IsCoherentTree :
        (Known : lib.H256 → Type 0) (t : MerklePatriciaTree lib.H256) (key val : Bytes)
        → IsClosed load Known
        → IsTree load Known t
        → IsCoherentTree lib rlp t
        → AreBytes key
        → key ≢ []
        → (new : MerklePatriciaTree lib.H256) × (put load n t key val ≡ some new)
          × IsTree load Known new
          × IsCoherentTree lib rlp new
    put-IsCoherentTree Known t key val closed tree coherent bytes full =
        let (new, runs, new_tree, held) = put-holds load Known closed n t key val tree bytes full in
        (
          new,
          runs,
          new_tree,
          Ensures-some (IsCoherentTree lib rlp) (put load n t key val) new runs
              (put_rooted t.root t.del_ops key val coherent),
        )

  module _ (db : KeyValueDb) (s : db.State) (n : ℕ) where
    abbrev pub loaded_by : lib.H256 → Option (TrieNodeExt lib.H256)
    loaded_by = load_from lib rlp db s

    -- On a database that keeps at every hash in column 0 nothing but the encoding, of 32 bytes or
    -- more, of a node with that hash, and in a tree with all its nodes there or in memory, whose
    -- caches are right: `get` of a key that is not empty returns, and leaves the caches right, of
    -- the nodes that `load` has read from the database too.
    pub get-IsCoherentTree :
        (Known : lib.H256 → Type 0) (t : MerklePatriciaTree lib.H256) (key : Bytes)
        → KeepsNodes lib rlp db s
        → IsClosed loaded_by Known
        → IsTree loaded_by Known t
        → IsCoherentTree lib rlp t
        → AreBytes key
        → key ≢ []
        → (value : Option Bytes) × (new : MerklePatriciaTree lib.H256) × (get loaded_by n t key
            ≡ some (value, new))
          × IsTree loaded_by Known new
          × IsCoherentTree lib rlp new
    get-IsCoherentTree Known t key keeps closed tree coherent bytes full =
        let sound = load_from-IsSound lib rlp db s keeps in
        let (value, new, runs, same, new_tree, held) =
          get-holds loaded_by Known closed n t key tree bytes full in
        (
          value,
          new,
          runs,
          new_tree,
          Ensures-some (ReadTree loaded_by sound n) (get loaded_by n t key) (value, new) runs
              (get_rooted loaded_by sound n t.root t.del_ops key coherent),
        )
