-- ===== src/Access/Keys/Slots.antt =====
-- Which keys stand in the slots, and what the search of `AddPublicKey` finds among them.
use common_embedded_platform.Prelude.{
  ℕ, zero, suc, ◌+◌, ◌<◌, ◌≤◌, ◌≡◌, ◌⊎◌, inl, inr, refl, sym, ap, ◌∙◌, Bool, true, false, not, ◌&&◌,
  ◌||◌, Option, none, some, List, [], ◌∷◌, arith, length, set, bytes_eq, bytes_eq_sound,
  bytes_eq_refl, Bool-cases,
}
use common_embedded_platform.Access.Keys.{
  AuthorizedKey, at_slot, free_slot, is_blank, is_none, search_slots, rename_slot, find_from,
  find_key, can_use_key,
}

abbrev pub contains : List ℕ → List AuthorizedKey → Bool
contains q [] = false
contains q (key ∷ keys) = bytes_eq key.pubkey q || contains q keys

find_from-contains :
    (q : List ℕ) (i : ℕ) (keys : List AuthorizedKey)
    → is_none (find_from q i keys) ≡ not (contains q keys)
unfolding find_from
find_from-contains q i [] = refl
find_from-contains q i (key ∷ keys) = elim (Bool-cases (bytes_eq key.pubkey q)) [
  | inl x ↦ rw x refl
  | inr y ↦ rw y (find_from-contains q (suc i) keys)
]

not-not : (b : Bool) → not (not b) ≡ b
not-not true = refl
not-not false = refl

pub can_use_key-contains :
    (q : List ℕ) (keys : List AuthorizedKey) → can_use_key true q keys ≡ contains q keys
unfolding can_use_key find_key
can_use_key-contains q keys = rw (find_from-contains q 0 keys) (not-not (contains q keys))

pub contains-rename_slot :
    (q : List ℕ) (keys : List AuthorizedKey) (i : ℕ) (name : List ℕ)
    → contains q (rename_slot keys i name) ≡ contains q keys
contains-rename_slot q [] i name = refl
contains-rename_slot q (key ∷ keys) zero name = refl
contains-rename_slot q (key ∷ keys) (suc i) name =
    ap (λ b. bytes_eq key.pubkey q || b) (contains-rename_slot q keys i name)

pub contains-set_self :
    (keys : List AuthorizedKey) (i : ℕ) (key : AuthorizedKey)
    → i < length keys
    → contains key.pubkey (set keys i key) ≡ true
contains-set_self [] i key h = elim h [ ]
contains-set_self (k ∷ keys) zero key h = rw (bytes_eq_refl key.pubkey) refl
contains-set_self (k ∷ keys) (suc i) key h =
    let rest = contains-set_self keys i key (omega arith) in ground arith

pub contains-set :
    (q : List ℕ) (keys : List AuthorizedKey) (i : ℕ) (key : AuthorizedKey)
    → contains q (set keys i key) ≡ true
    → (contains q keys ≡ true) ⊎ (key.pubkey ≡ q)
contains-set q [] i key h = inl h
contains-set q (k ∷ keys) zero key h = elim (Bool-cases (bytes_eq key.pubkey q)) [
  | inl x ↦ inr (bytes_eq_sound key.pubkey q x)
  | inr y ↦ inl (ground arith)
]
contains-set q (k ∷ keys) (suc i) key h = elim (Bool-cases (bytes_eq k.pubkey q)) [
  | inl x ↦ inl (rw x refl)
  | inr y ↦ elim (contains-set q keys i key (ground arith)) [
    | inl u ↦ inl (ground arith)
    | inr e ↦ inr e
  ]
]

-- The three ways that a step of the search can go.
search-notes :
    (q : List ℕ) (free : Option ℕ) (i : ℕ) (key : AuthorizedKey) (keys : List AuthorizedKey)
    → (is_none free && is_blank key) ≡ true
    → search_slots q free i (key ∷ keys) ≡ search_slots q (some i) (suc i) keys
unfolding search_slots
search-notes q free i key keys e = rw e refl

search-match :
    (q : List ℕ) (free : Option ℕ) (i : ℕ) (key : AuthorizedKey) (keys : List AuthorizedKey)
    → (is_none free && is_blank key) ≡ false
    → bytes_eq key.pubkey q ≡ true
    → search_slots q free i (key ∷ keys) ≡ at_slot i
unfolding search_slots
search-match q free i key keys e x = rw (e, x) refl

search-skip :
    (q : List ℕ) (free : Option ℕ) (i : ℕ) (key : AuthorizedKey) (keys : List AuthorizedKey)
    → (is_none free && is_blank key) ≡ false
    → bytes_eq key.pubkey q ≡ false
    → search_slots q free i (key ∷ keys) ≡ search_slots q free (suc i) keys
unfolding search_slots
search-skip q free i key keys e x = rw (e, x) refl

contains-tail :
    (q : List ℕ) (key : AuthorizedKey) (keys : List AuthorizedKey)
    → contains q keys ≡ true
    → contains q (key ∷ keys) ≡ true
contains-tail q key keys h = ground arith

pub at_slot-contains :
    (q : List ℕ) (free : Option ℕ) (i j : ℕ) (keys : List AuthorizedKey)
    → search_slots q free i keys ≡ at_slot j
    → contains q keys ≡ true
unfolding search_slots
at_slot-contains q none i j [] h = ground arith
at_slot-contains q (some k) i j [] h = ground arith
at_slot-contains q free i j (key ∷ keys) h = elim (Bool-cases (bytes_eq key.pubkey q)) [
  | inl y ↦ rw y refl
  | inr n ↦ contains-tail q key keys (elim (Bool-cases (is_none free && is_blank key)) [
    | inl x ↦
        at_slot-contains q (some i) (suc i) j keys (sym (search-notes q free i key keys x) ∙ h)
    | inr x ↦ at_slot-contains q free (suc i) j keys (sym (search-skip q free i key keys x n) ∙ h)
  ])
]

-- The slot found free is one of the list.
pub free_slot-in_range :
    (q : List ℕ) (free : Option ℕ) (i j : ℕ) (keys : List AuthorizedKey)
    → search_slots q free i keys ≡ free_slot j
    → (free ≡ some j) ⊎ ((i ≤ j) × (j < i + length keys))
unfolding search_slots
free_slot-in_range q none i j [] h = ground arith
free_slot-in_range q (some k) i j [] h = inl (ground arith)
free_slot-in_range q free i j (key ∷ keys) h = elim (Bool-cases (is_none free && is_blank key)) [
  | inl x ↦
      elim (free_slot-in_range q (some i) (suc i) j keys
        (sym (search-notes q free i key keys x) ∙ h)) [
          | inl e ↦ inr (ground arith)
          | inr r ↦ inr (omega (arith, r.0), omega (arith, r.1))
        ]
  | inr x ↦ elim (Bool-cases (bytes_eq key.pubkey q)) [
    | inl y ↦ absurd (ground (arith, sym (search-match q free i key keys x y) ∙ h))
    | inr n ↦
        elim (free_slot-in_range q free (suc i) j keys
          (sym (search-skip q free i key keys x n) ∙ h)) [
            | inl e ↦ inl e
            | inr r ↦ inr (omega (arith, r.0), omega (arith, r.1))
          ]
  ]
]
