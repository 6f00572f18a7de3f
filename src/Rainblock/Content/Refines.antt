-- ===== src/Rainblock/Content/Refines.antt =====
-- MerklePatriciaTree of asb-authdb/rainblock-trie/src/rain_mpt.rs against a map from byte keys to
-- values that are not empty.
use extended_hypertrie_authe.Prelude.{
  ℕ, List, [], ◌∷◌, Option, none, some, Bool, true, false, ◌≡◌, ◌≢◌, refl, ap, fun_ext, ◌∙◌,
  list_beq, if◌then◌else◌,
}
use extended_hypertrie_authe.Prelude.Options.{◌>>=◌}
use extended_hypertrie_authe.Serde.{Bytes}
use extended_hypertrie_authe.Rainblock.Nibble.{Nibbles, bytes_to_nibble_list}
use extended_hypertrie_authe.Rainblock.Node.{leaf, TrieNodeExt, ext, seal}
use extended_hypertrie_authe.Rainblock.Ops.{MerklePatriciaTree, get, del, put}
use extended_hypertrie_authe.Rainblock.Content.{stored, IsClosed}
use extended_hypertrie_authe.Rainblock.Content.Steps.{update}
use extended_hypertrie_authe.Rainblock.Content.Parted.{find-leaf}
use extended_hypertrie_authe.Rainblock.Content.Keys.{
  AreBytes, bytes_to_nibble_list-AreNibbles, list_beq-bytes_to_nibble_list,
}
use extended_hypertrie_authe.Rainblock.Content.Changes.{content, IsRooted, Holds}
use extended_hypertrie_authe.Rainblock.Content.Mapping.{get_nibbles, del_nibbles, put_nibbles, tree}

either_way : (b : Bool) (o : Option Bytes) → o ≡ (if b then o else o)
either_way true o = refl
either_way false o = refl

-- A map of byte keys after a call of `put`, and after many.
abbrev pub put_in : (Bytes → Option Bytes) → Bytes → Bytes → Bytes → Option Bytes
put_in map key val k = if list_beq key k then stored val else map k

abbrev pub replay : (Bytes → Option Bytes) → List (Bytes × Bytes) → Bytes → Option Bytes
replay map [] = map
replay map ((key, val) ∷ calls) = replay (put_in map key val) calls

abbrev pub AreCalls : List (Bytes × Bytes) → Type 0
AreCalls [] = Unit
AreCalls ((key, val) ∷ calls) = AreBytes key × (key ≢ []) × AreCalls calls

module _ {H : Type 0} (load : H → Option (TrieNodeExt H)) (n : ℕ) where
  abbrev pub put_all : MerklePatriciaTree H → List (Bytes × Bytes) → Option (MerklePatriciaTree H)
  put_all t [] = some t
  put_all t ((key, val) ∷ calls) = do new ← put load n t key val; put_all new calls

module _ {H : Type 0} (load : H → Option (TrieNodeExt H)) (Known : H → Type 0) where
  -- The value that a tree holds for a key.
  abbrev pub holds : MerklePatriciaTree H → Bytes → Option Bytes
  holds t key = content load Known t.root (bytes_to_nibble_list key)

  -- The invariant of a tree.
  abbrev pub IsTree : MerklePatriciaTree H → Type 0
  IsTree t = IsRooted load Known t.root

  holds-update :
      (map : Nibbles → Option Bytes) (key k val : Bytes)
      → update map (bytes_to_nibble_list key) (stored val) (bytes_to_nibble_list k)
        ≡ put_in (λ j. map (bytes_to_nibble_list j)) key val k
  holds-update map key k val =
      ap (λ (b : Bool). if b then stored val else map (bytes_to_nibble_list k))
        (list_beq-bytes_to_nibble_list key k)

  abbrev Puts : Option (MerklePatriciaTree H) → MerklePatriciaTree H → Bytes → Bytes → Type 0
  Puts result t key val =
      (new : MerklePatriciaTree H) × (result ≡ some new)
      × IsTree new
      × ((k : Bytes) → holds new k ≡ put_in (holds t) key val k)

  from_nibbles :
      (result : Option (MerklePatriciaTree H)) (t : MerklePatriciaTree H) (key val : Bytes)
      → Holds load Known result
          (update (content load Known t.root) (bytes_to_nibble_list key) (stored val))
      → Puts result t key val
  from_nibbles result t key val (new, runs, rooted, held) = (
    new,
    runs,
    rooted,
    λ k.
        ap (λ (x : Nibbles → Option Bytes). x (bytes_to_nibble_list k)) held
        ∙ holds-update (content load Known t.root) key k val,
  )

  module _ (closed : IsClosed load Known) (n : ℕ) where
    put_rooted :
        (root : Option (TrieNodeExt H)) (ops : List H) (b : ℕ) (key val : Bytes)
        → IsRooted load Known root
        → AreBytes (b ∷ key)
        → Puts
            (put load n (record { root = root; del_ops = ops }) (b ∷ key) val)
            (record { root = root; del_ops = ops })
            (b ∷ key)
            val
    unfolding put del
    put_rooted none ops b key [] rooted bytes = (
      record { root = none; del_ops = ops },
      refl,
      tt,
      λ k. either_way (list_beq (b ∷ key) k) none,
    )
    put_rooted none ops b key (v ∷ val) rooted bytes =
        let nibbles = bytes_to_nibble_list (b ∷ key) in
        from_nibbles _ (record { root = none; del_ops = ops }) (b ∷ key) (v ∷ val)
          (
            record { root = some (seal (leaf nibbles (v ∷ val))); del_ops = ops },
            refl,
            (bytes_to_nibble_list-AreNibbles (b ∷ key) bytes, λ eq. cc),
            find-leaf load Known nibbles (v ∷ val),
          )
    put_rooted (some (ext node c)) ops b key [] rooted bytes =
        from_nibbles _ (tree load Known closed n node c ops) (b ∷ key) []
          (del_nibbles load Known closed n ops node c (b ∷ key) rooted bytes)
    put_rooted (some (ext node c)) ops b key (v ∷ val) rooted bytes =
        from_nibbles _ (tree load Known closed n node c ops) (b ∷ key) (v ∷ val)
          (put_nibbles load Known closed n ops node c b key v val rooted bytes)

    -- `put` of a key that is not empty returns a tree that holds the value at the key, or nothing
    -- where the value is empty, and at every other key what the tree held.
    pub put-holds :
        (t : MerklePatriciaTree H) (key val : Bytes)
        → IsTree t
        → AreBytes key
        → key ≢ []
        → (new : MerklePatriciaTree H) × (put load n t key val ≡ some new)
          × IsTree new
          × ((k : Bytes) → holds new k ≡ put_in (holds t) key val k)
    put-holds t [] val rooted bytes full = absurd (full refl)
    put-holds t (b ∷ key) val rooted bytes full = put_rooted t.root t.del_ops b key val rooted bytes

    get_rooted :
        (root : Option (TrieNodeExt H)) (ops : List H) (b : ℕ) (key : Bytes)
        → IsRooted load Known root
        → AreBytes (b ∷ key)
        → (r : Option Bytes) × (new : MerklePatriciaTree H) × (get load n
              (record { root = root; del_ops = ops })
              (b ∷ key)
            ≡ some (r, new))
          × ((r >>= stored) ≡ content load Known root (bytes_to_nibble_list (b ∷ key)))
          × IsTree new
          × (content load Known new.root ≡ content load Known root)
    unfolding get
    get_rooted none ops b key rooted bytes =
        (none, record { root = none; del_ops = ops }, refl, refl, tt, refl)
    get_rooted (some (ext node c)) ops b key rooted bytes =
        get_nibbles load Known closed n ops node c b key rooted bytes

    -- `get` of a key that is not empty returns what the tree holds, up to an empty value, which
    -- stands for none, and leaves a tree that holds the same at every key.
    pub get-holds :
        (t : MerklePatriciaTree H) (key : Bytes)
        → IsTree t
        → AreBytes key
        → key ≢ []
        → (r : Option Bytes) × (new : MerklePatriciaTree H) × (get load n t key ≡ some (r, new))
          × ((r >>= stored) ≡ holds t key)
          × IsTree new
          × ((k : Bytes) → holds new k ≡ holds t k)
    get-holds t [] rooted bytes full = absurd (full refl)
    get-holds t (b ∷ key) rooted bytes full =
        let (r, new, runs, value, trie, same) = get_rooted t.root t.del_ops b key rooted bytes in
        (
          r,
          new,
          runs,
          value,
          trie,
          λ k. ap (λ (x : Nibbles → Option Bytes). x (bytes_to_nibble_list k)) same,
        )

    -- Any calls of `put` with keys that are not empty all return, and leave a tree that is the map
    -- with the same changes in the same order.
    pub put_all-replay :
        (t : MerklePatriciaTree H) (calls : List (Bytes × Bytes))
        → IsTree t
        → AreCalls calls
        → (new : MerklePatriciaTree H) × (put_all load n t calls ≡ some new)
          × IsTree new
          × (holds new ≡ replay (holds t) calls)
    put_all-replay t [] tree h = (t, refl, tree, refl)
    put_all-replay t ((key, val) ∷ calls) tree (bytes, full, rest) =
        let (mid, runs, trie, held) = put-holds t key val tree bytes full in
        let (new, runs', trie', held') = put_all-replay mid calls trie rest in
        (
          new,
          rw runs runs',
          trie',
          held' ∙ ap (λ (map : Bytes → Option Bytes). replay map calls) (fun_ext held),
        )
