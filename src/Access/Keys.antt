-- ===== src/Access/Keys.antt =====
-- `SSHKeyManager` (tcpip/SSHKeyManager.cpp and .h) and `KeyManagerPubkeyAuthenticator::CanUseKey`. A key
-- and a nickname are lists of bytes, a nickname up to its terminator. The base64 decoder and the layout of the key
-- blob are of another repository, and so is the key-value store: parameters.
pub mod Slots
pub mod Lookup
pub mod Storage
use common_embedded_platform.Prelude.{
  ℕ, zero, suc, ◌+◌, ◌<◌, ◌≡◌, ◌≢◌, Bool, true, false, not, ◌&&◌, Option, none, some, List, [], ◌∷◌,
  length, get_elem?, get_or, set, take, replicate, bytes_eq, ltb, ◌==◌, if◌then◌else◌,
}

pub record AuthorizedKey : Type 0 where
  pub pubkey : List ℕ
  pub nickname : List ℕ

-- The fields of `SSHCurve25519KeyBlob`, in the order of the bytes on this machine.
pub record KeyBlob : Type 0 where
  pub key_type_length : ℕ
  pub key_type : List ℕ
  pub pub_key_length : ℕ
  pub pub_key : List ℕ

-- `m_nickname[0] == '\0'`.
abbrev pub is_blank : AuthorizedKey → Bool
is_blank key = get_or key.nickname 0 0 == 0

-- A key of ECDSA_KEY_SIZE zero bytes and an empty nickname.
abbrev pub cleared : ℕ → AuthorizedKey
cleared key_size = record { pubkey = replicate key_size 0; nickname = [] }

-- The search of `AddPublicKey`: the slot of the key, or else the first free slot.
pub data Search : Type 0 where
  at_slot free_slot : ℕ → Search
  all_in_use : Search

abbrev pub slot_or_full : Option ℕ → Search
slot_or_full none = all_in_use
slot_or_full (some i) = free_slot i

abbrev pub is_none : Option ℕ → Bool
is_none none = true
is_none (some i) = false

unfoldable pub search_slots : List ℕ → Option ℕ → ℕ → List AuthorizedKey → Search
search_slots pubkey free i [] = slot_or_full free
search_slots pubkey free i (key ∷ keys) =
    let notes = is_none free && is_blank key in
    let rest = search_slots pubkey (if notes then some i else free) (suc i) keys in
    if notes then rest else if bytes_eq key.pubkey pubkey then at_slot i else rest

abbrev pub rename_slot : List AuthorizedKey → ℕ → List ℕ → List AuthorizedKey
rename_slot [] i nickname = []
rename_slot (key ∷ keys) zero nickname = record key { nickname = nickname } ∷ keys
rename_slot (key ∷ keys) (suc i) nickname = key ∷ rename_slot keys i nickname

-- The end of `AddPublicKey`, from the search on.
abbrev pub save : Search → List ℕ → List ℕ → List AuthorizedKey → Bool × List AuthorizedKey
save (at_slot i) pubkey nickname keys = (true, rename_slot keys i nickname)
save (free_slot i) pubkey nickname keys =
    (true, set keys i (record { pubkey = pubkey; nickname = nickname }))
save all_in_use pubkey nickname keys = (false, keys)

-- "ssh-ed25519".
abbrev pub ed25519 : List ℕ
ed25519 = 115 ∷ 115 ∷ 104 ∷ 45 ∷ 101 ∷ 100 ∷ 50 ∷ 53 ∷ 53 ∷ 49 ∷ 57 ∷ []

module _ (key_size name_length : ℕ) (base64_decode : List ℕ → ℕ × KeyBlob) where
  -- The checks of `AddPublicKey` before the search.
  unfoldable pub checked : List ℕ → List ℕ → Option (List ℕ)
  checked key_type text =
      let binlen = (base64_decode text).0 in
      let blob = (base64_decode text).1 in
      if not (bytes_eq key_type ed25519)
      then none
      else if ltb 84 (length text)
      then none
      else if not (binlen == 51)
      then none
      else if not (blob.key_type_length == 11)
      then none
      else if not (bytes_eq (take 11 blob.key_type) ed25519)
      then none
      else if not (blob.pub_key_length == key_size)
      then none
      else some (take key_size blob.pub_key)

  abbrev pub add_checked : Option (List ℕ) → List ℕ → List AuthorizedKey → Bool × List AuthorizedKey
  add_checked none description keys = (false, keys)
  add_checked (some pubkey) description keys =
      save (search_slots pubkey none 0 keys) pubkey (take name_length description) keys

  unfoldable pub add_public_key :
      List ℕ → List ℕ → List ℕ → List AuthorizedKey → Bool × List AuthorizedKey
  add_public_key key_type text description keys =
      add_checked (checked key_type text) description keys

-- A slot below 0 is refused by the same guard.
unfoldable pub remove_public_key : ℕ → ℕ → List AuthorizedKey → List AuthorizedKey
remove_public_key key_size slot keys =
    if ltb slot (length keys) then set keys slot (cleared key_size) else keys

unfoldable pub find_from : List ℕ → ℕ → List AuthorizedKey → Option ℕ
find_from search i [] = none
find_from search i (key ∷ keys) =
    let rest = find_from search (suc i) keys in if bytes_eq key.pubkey search then some i else rest

-- The slot of the key; the source returns -1 for `none`.
unfoldable pub find_key : List ℕ → List AuthorizedKey → Option ℕ
find_key search keys = find_from search 0 keys

-- `CanUseKey`: `name_matches` is the answer of `StringMatchWithLength`.
unfoldable pub can_use_key : Bool → List ℕ → List AuthorizedKey → Bool
can_use_key name_matches pubkey keys =
    if not name_matches then false else not (is_none (find_key pubkey keys))

-- What the code uses of microkvs. `store` is `StoreObjectIfNecessary`, which writes no value
-- that a missing object reads as.
pub record Kvs (Name S : Type 0) : Type 1 where
  pub find_object : S → Name → Option AuthorizedKey
  pub store : S → Name → AuthorizedKey → AuthorizedKey → S

abbrev pub or_default : AuthorizedKey → Option AuthorizedKey → AuthorizedKey
or_default default none = default
or_default default (some key) = key

-- The laws: a value stored is read back, and the other objects stay.
pub record IsStore {Name S : Type 0} (kvs : Kvs Name S) : Type 0 where
  pub store_same :
      (s : S) (n : Name) (key default : AuthorizedKey)
      → or_default default (kvs.find_object (kvs.store s n key default) n) ≡ key
  pub store_other :
      (s : S) (n m : Name) (key default : AuthorizedKey)
      → n ≢ m
      → kvs.find_object (kvs.store s n key default) m ≡ kvs.find_object s m

abbrev pub is_missing : Option AuthorizedKey → Bool
is_missing none = true
is_missing (some key) = false

-- `slot_name i` is the text "ssh.authkey%02d" of slot `i`.
module _ {Name S : Type 0} (kvs : Kvs Name S) (slot_name : ℕ → Name) (key_size : ℕ) where
  unfoldable pub load_slots : ℕ → ℕ → S → List AuthorizedKey
  load_slots zero i s = []
  load_slots (suc n) i s =
      or_default (cleared key_size) (kvs.find_object s (slot_name i)) ∷ load_slots n (suc i) s

  unfoldable pub load_from_kvs : ℕ → S → List AuthorizedKey
  load_from_kvs max_keys s = load_slots max_keys 0 s

  -- One slot: what it holds afterwards, and the store.
  unfoldable pub commit_slot : ℕ → AuthorizedKey → S → AuthorizedKey × S
  commit_slot i key s =
      let blank = is_blank key in
      let saved = if blank then cleared key_size else key in
      if blank && is_missing (kvs.find_object s (slot_name i))
      then (saved, s)
      else (saved, kvs.store s (slot_name i) saved (cleared key_size))

  unfoldable pub commit_slots : ℕ → List AuthorizedKey → S → List AuthorizedKey × S
  commit_slots i [] s = ([], s)
  commit_slots i (key ∷ keys) s =
      let here = commit_slot i key s in
      let rest = commit_slots (suc i) keys here.1 in (here.0 ∷ rest.0, rest.1)

  unfoldable pub commit_to_kvs : List AuthorizedKey → S → List AuthorizedKey × S
  commit_to_kvs keys s = commit_slots 0 keys s
