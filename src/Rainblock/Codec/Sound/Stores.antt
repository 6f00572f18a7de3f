-- ===== src/Rainblock/Codec/Sound/Stores.antt =====
-- A database that asb-authdb/rainblock-trie has written: at every hash in column 0 there is the
-- encoding of a node with that hash, and `TrieNodeExt::load` reads it with right caches.
use extended_hypertrie_authe.Prelude.{◌≤◌, ◌≡◌, sym, ap, subst, ◌∙◌, length}
use extended_hypertrie_authe.Prelude.Options.{Ensures, Ensures-bind}
use extended_hypertrie_authe.Serde.{Bytes}
use extended_hypertrie_authe.Storage.Backend.{KeyValueDb}
use extended_hypertrie_authe.Merkle.Hashing.{HashLib}
use extended_hypertrie_authe.Rainblock.Node.{TrieNode}
use extended_hypertrie_authe.Rainblock.Rlp.{Rlp}
use extended_hypertrie_authe.Rainblock.Codec.{encode}
use extended_hypertrie_authe.Rainblock.Codec.Shown.{IsShaped, shown}
use extended_hypertrie_authe.Rainblock.Codec.Decoded.{from_loaded-encode}
use extended_hypertrie_authe.Rainblock.Codec.Sound.{IsSound, IsStored}
use extended_hypertrie_authe.Rainblock.Commits.{from_loaded, load_from}

module _ (lib : HashLib) (rlp : Rlp) where
  -- The bytes are the encoding of a node, with nibbles for keys and 16 children in every branch,
  -- which is too long to stand in its parent, and the digest is their hash.
  abbrev pub IsRecord : lib.H256 → Bytes → Type 0
  IsRecord digest bytes =
      (node : TrieNode lib.H256) × (encode lib rlp node ≡ bytes)
      × IsShaped lib rlp node
      × (digest ≡ lib.keccak bytes)
      × (32 ≤ length bytes)

  -- Where there are bytes at a hash, they are such an encoding.
  abbrev pub KeepsNodes : (db : KeyValueDb) → db.State → Type 0
  KeepsNodes db s =
      (digest : lib.H256) → Ensures (IsRecord digest) (db.get s 0 (lib.as_bytes digest))

  encoding-IsStored :
      (digest : lib.H256) (node : TrieNode lib.H256)
      → IsShaped lib rlp node
      → digest ≡ lib.keccak (encode lib rlp node)
      → 32 ≤ length (encode lib rlp node)
      → Ensures (IsStored lib rlp digest) (from_loaded lib rlp digest (encode lib rlp node))
  encoding-IsStored digest node shaped same long =
      let (loads, kept, coherent) = from_loaded-encode lib rlp digest node shaped in
      let hashed : digest ≡ lib.keccak (encode lib rlp (shown lib rlp node)) =
        same ∙ ap lib.keccak (sym kept) in
      let large : 32 ≤ length (encode lib rlp (shown lib rlp node)) =
        subst (λ (b : Bytes). 32 ≤ length b) (sym kept) long in
      subst (Ensures (IsStored lib rlp digest)) (sym loads)
        ((coherent, (sym kept, large, hashed)), hashed, large)

  record-IsStored :
      (digest : lib.H256) (bytes : Bytes)
      → IsRecord digest bytes
      → Ensures (IsStored lib rlp digest) (from_loaded lib rlp digest bytes)
  record-IsStored digest bytes (node, same, shaped, hashed, long) =
      subst (λ (b : Bytes). Ensures (IsStored lib rlp digest) (from_loaded lib rlp digest b)) same
        (encoding-IsStored digest node shaped (hashed ∙ ap lib.keccak (sym same))
          (subst (λ (b : Bytes). 32 ≤ length b) (sym same) long))

  pub load_from-IsSound :
      (db : KeyValueDb) (s : db.State) → KeepsNodes db s → IsSound lib rlp (load_from lib rlp db s)
  unfolding load_from
  load_from-IsSound db s keeps = λ digest.
      Ensures-bind (IsRecord digest) (IsStored lib rlp digest) (db.get s 0 (lib.as_bytes digest))
        (from_loaded lib rlp digest) (keeps digest) (record-IsStored digest)
