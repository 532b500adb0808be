-- ===== src/Access/Tests.antt =====
-- Keys of two bytes in three slots, and polls of the link state.
use common_embedded_platform.Prelude.{
  ℕ, ◌≡◌, ◌≢◌, ◌⊎◌, refl, ap, Bool, true, false, none, some, Option, List, [], ◌∷◌, arith,
  replicate, get_elem?, get_or, ==_refl, ◌==◌, zero, suc, if◌then◌else◌,
}
use common_embedded_platform.Access.Keys.{
  AuthorizedKey, KeyBlob, Kvs, IsStore, ed25519, checked, add_public_key, search_slots, find_key,
  find_from, remove_public_key, can_use_key, cleared, load_from_kvs, commit_to_kvs,
}
use common_embedded_platform.Access.Link.{
  Link, link_state_changed, on_link_up, on_link_down, PhyRegisters, poll_phys, poll_all,
}
use common_embedded_platform.Access.Link.Replay.{told, told-poll_all}
use common_embedded_platform.Access.Keys.Lookup.{
  add_public_key-accepted, add_public_key-only, remove_public_key-rejected, remove_public_key-zero,
}
use common_embedded_platform.Access.Keys.Storage.{load_from_kvs-commit_to_kvs}

-- Every text decodes to the same blob, with key 5, 6.
abbrev decoder : List ℕ → ℕ × KeyBlob
decoder text = (
  51,
  record { key_type_length = 11; key_type = ed25519; pub_key_length = 2; pub_key = 5 ∷ 6 ∷ [] },
)

abbrev alice : AuthorizedKey
alice = record { pubkey = 7 ∷ 8 ∷ []; nickname = 97 ∷ [] }

abbrev slots : List AuthorizedKey
slots = alice ∷ cleared 2 ∷ cleared 2 ∷ []

abbrev added : Bool × List AuthorizedKey
added = add_public_key 2 16 decoder ed25519 [] (98 ∷ []) slots

add_public_key-accepted_example : can_use_key true (5 ∷ 6 ∷ []) added.1 ≡ true
unfolding add_public_key checked search_slots
add_public_key-accepted_example =
    add_public_key-accepted 2 16 decoder ed25519 [] (98 ∷ []) (5 ∷ 6 ∷ []) slots refl refl

add_public_key-only_example :
    (can_use_key true (5 ∷ 6 ∷ []) slots ≡ true)
    ⊎ (checked 2 16 decoder ed25519 [] ≡ some (5 ∷ 6 ∷ []))
unfolding add_public_key checked search_slots can_use_key find_key find_from
add_public_key-only_example =
    add_public_key-only 2 16 decoder ed25519 [] (98 ∷ []) (5 ∷ 6 ∷ []) slots refl

abbrev first_byte : Option AuthorizedKey → ℕ
first_byte none = 0
first_byte (some key) = get_or key.pubkey 0 0

alice_once :
    (j : ℕ) (key : AuthorizedKey) → get_elem? slots j ≡ some key → key.pubkey ≡ 7 ∷ 8 ∷ [] → j ≡ 0
alice_once zero key e k = refl
alice_once (suc zero) key e k =
    let z : 0 ≡ get_or key.pubkey 0 0 = ap first_byte e in
    let seven : get_or key.pubkey 0 0 ≡ 7 = ap (λ xs. get_or xs 0 0) k in
    absurd (omega (arith, z, seven))
alice_once (suc (suc zero)) key e k =
    let z : 0 ≡ get_or key.pubkey 0 0 = ap first_byte e in
    let seven : get_or key.pubkey 0 0 ≡ 7 = ap (λ xs. get_or xs 0 0) k in
    absurd (omega (arith, z, seven))
alice_once (suc (suc (suc j))) key e k =
    let z : 0 ≡ get_or key.pubkey 0 0 = ap first_byte e in
    let seven : get_or key.pubkey 0 0 ≡ 7 = ap (λ xs. get_or xs 0 0) k in
    absurd (omega (arith, z, seven))

other_key : replicate {A = ℕ} 2 0 ≢ 7 ∷ 8 ∷ []
other_key e = let same : ◌≡◌ {A = ℕ} 0 7 = ap (λ xs. get_or xs 0 0) e in omega (arith, same)

remove_public_key-rejected_example :
    can_use_key true (7 ∷ 8 ∷ []) (remove_public_key 2 0 slots) ≡ false
remove_public_key-rejected_example =
    remove_public_key-rejected 2 0 (7 ∷ 8 ∷ []) slots alice_once other_key

remove_public_key-zero_example : can_use_key true (0 ∷ 0 ∷ []) (remove_public_key 2 0 slots) ≡ true
remove_public_key-zero_example = remove_public_key-zero 2 0 slots (omega arith)

-- A store that keeps one object for each number.
abbrev functional_store : Kvs ℕ (ℕ → Option AuthorizedKey)
functional_store = record {
  find_object = λ s n. s n;
  store = λ s n key default. λ m. if n == m then some key else s m;
}

functional_store-IsStore : IsStore functional_store
functional_store-IsStore = record {
  store_same = λ s n key default. ground (arith, ==_refl n);
  store_other = λ s n m key default ne. ground (arith, ne);
}

load_from_kvs-commit_to_kvs_example :
    load_from_kvs functional_store
      (λ i. i)
      2
      3
      (commit_to_kvs functional_store (λ i. i) 2 slots (λ n. none)).1
    ≡ (commit_to_kvs functional_store (λ i. i) 2 slots (λ n. none)).0
load_from_kvs-commit_to_kvs_example =
    load_from_kvs-commit_to_kvs functional_store (λ i. i) 2 functional_store-IsStore slots
      (λ n. none) (λ j k p q e. omega (arith, p, e))

-- The link comes up at 1 Gb/s, stays up, and goes down.
abbrev polls : List PhyRegisters
polls =
    record { basic_control = 0x40; basic_status = 4 }
    ∷ record { basic_control = 0x40; basic_status = 0x24 }
    ∷ record { basic_control = 0x40; basic_status = 0 }
    ∷ []

abbrev link_down : Link
link_down = record { up = false; speed = 0 }

polls_test :
    poll_all polls link_down
    ≡ (link_state_changed 2 ∷ on_link_up ∷ link_state_changed 0 ∷ on_link_down ∷ [], link_down)
unfolding poll_all poll_phys
polls_test = refl

told-poll_all_example :
    told false 0 (poll_all polls link_down).0
    ≡ some ((poll_all polls link_down).1.up, (poll_all polls link_down).1.speed)
told-poll_all_example = told-poll_all polls link_down
