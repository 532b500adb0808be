-- ===== src/Access/Keys/Lookup.antt =====
-- Which keys are accepted after a key is added or removed.
use common_embedded_platform.Prelude.{
  ℕ, zero, suc, ◌<◌, ◌≡◌, ◌≢◌, ◌⊎◌, inl, inr, refl, sym, ap, subst, ◌∙◌, true, false, Option, none,
  some, List, [], ◌∷◌, arith, length, get_elem?, get_elem?-some-lt, set, take, replicate, bytes_eq,
  bytes_eq_sound, ltb, if◌then◌else◌, Bool-cases,
}
use common_embedded_platform.Access.Keys.{
  AuthorizedKey, KeyBlob, Search, at_slot, free_slot, all_in_use, cleared, search_slots, save,
  checked, add_checked, add_public_key, remove_public_key, can_use_key,
}
use common_embedded_platform.Access.Keys.Slots.{
  contains, can_use_key-contains, contains-rename_slot, contains-set_self, contains-set,
  at_slot-contains, free_slot-in_range,
}

module _ (key_size name_length : ℕ) (base64_decode : List ℕ → ℕ × KeyBlob) where
  save-contains :
      (pubkey name : List ℕ) (keys : List AuthorizedKey) (found : Search)
      → search_slots pubkey none 0 keys ≡ found
      → (save found pubkey name keys).0 ≡ true
      → contains pubkey (save found pubkey name keys).1 ≡ true
  save-contains pubkey name keys (at_slot i) e h =
      contains-rename_slot pubkey keys i name ∙ at_slot-contains pubkey none 0 i keys e
  save-contains pubkey name keys (free_slot i) e h =
      elim (free_slot-in_range pubkey none 0 i keys e) [
        | inl n ↦ absurd (ground arith)
        | inr r ↦
            contains-set_self keys i (record { pubkey = pubkey; nickname = name })
              (omega (arith, r.1))
      ]
  save-contains pubkey name keys all_in_use e h = absurd (ground arith)

  -- If the checks of `AddPublicKey` yield a key and the call returns true, `CanUseKey` accepts that key
  -- afterwards for the right user name.
  pub add_public_key-accepted :
      (key_type text description pubkey : List ℕ) (keys : List AuthorizedKey)
      → checked key_size name_length base64_decode key_type text ≡ some pubkey
      → (add_public_key key_size name_length base64_decode key_type text description keys).0 ≡ true
      → can_use_key true pubkey
          (add_public_key key_size name_length base64_decode key_type text description keys).1
        ≡ true
  unfolding add_public_key
  add_public_key-accepted key_type text description pubkey keys e h =
      can_use_key-contains pubkey
        (add_public_key key_size name_length base64_decode key_type text description keys).1
      ∙ subst
          (λ o.
            (add_checked key_size name_length base64_decode o description keys).0 ≡ true
            → contains pubkey (add_checked key_size name_length base64_decode o description keys).1
              ≡ true)
          (sym e)
          (λ k.
            save-contains pubkey (take name_length description) keys
              (search_slots pubkey none 0 keys) refl k)
          h

  save-others :
      (q pubkey name : List ℕ) (keys : List AuthorizedKey) (found : Search)
      → contains q (save found pubkey name keys).1 ≡ true
      → (contains q keys ≡ true) ⊎ (pubkey ≡ q)
  save-others q pubkey name keys (at_slot i) h = inl (sym (contains-rename_slot q keys i name) ∙ h)
  save-others q pubkey name keys (free_slot i) h =
      contains-set q keys i (record { pubkey = pubkey; nickname = name }) h
  save-others q pubkey name keys all_in_use h = inl h

  add_checked-others :
      (q description : List ℕ) (keys : List AuthorizedKey) (o : Option (List ℕ))
      → contains q (add_checked key_size name_length base64_decode o description keys).1 ≡ true
      → (contains q keys ≡ true) ⊎ (o ≡ some q)
  add_checked-others q description keys none h = inl h
  add_checked-others q description keys (some pubkey) h =
      elim (save-others q pubkey (take name_length description) keys
        (search_slots pubkey none 0 keys) h) [ inl u ↦ inl u | inr e ↦ inr (ap some e) ]

  -- Whatever is added: a key that is accepted afterwards was accepted before, or it is the key that
  -- passed the checks.
  pub add_public_key-only :
      (key_type text description q : List ℕ) (keys : List AuthorizedKey)
      → can_use_key true q
          (add_public_key key_size name_length base64_decode key_type text description keys).1
        ≡ true
      → (can_use_key true q keys ≡ true)
        ⊎ (checked key_size name_length base64_decode key_type text ≡ some q)
  unfolding add_public_key
  add_public_key-only key_type text description q keys h =
      elim (add_checked-others q description keys
        (checked key_size name_length base64_decode key_type text)
        (sym (
            can_use_key-contains q
              (add_public_key key_size name_length base64_decode key_type text description keys).1)
          ∙ h)) [ inl u ↦ inl (can_use_key-contains q keys ∙ u) | inr e ↦ inr e ]

not_contains :
    (q : List ℕ) (keys : List AuthorizedKey)
    → ((j : ℕ) (key : AuthorizedKey) → get_elem? keys j ≡ some key → key.pubkey ≢ q)
    → contains q keys ≡ false
not_contains q [] none_such = refl
not_contains q (key ∷ keys) none_such = elim (Bool-cases (bytes_eq key.pubkey q)) [
  | inl x ↦ absurd (none_such 0 key refl (bytes_eq_sound key.pubkey q x))
  | inr y ↦ rw y (not_contains q keys (λ j k e. none_such (suc j) k e))
]

abbrev or_else : AuthorizedKey → Option AuthorizedKey → AuthorizedKey
or_else key none = key
or_else key (some k) = k

elem-set :
    (keys : List AuthorizedKey) (i j : ℕ) (v key : AuthorizedKey)
    → get_elem? (set keys i v) j ≡ some key
    → (v ≡ key) ⊎ ((get_elem? keys j ≡ some key) × (j ≢ i))
elem-set [] i j v key e = absurd (ground arith)
elem-set (k ∷ keys) zero zero v key e = inl (ap (λ o. or_else v o) e)
elem-set (k ∷ keys) zero (suc j) v key e = inr (e, λ z. omega (arith, z))
elem-set (k ∷ keys) (suc i) zero v key e = inr (e, λ z. omega (arith, z))
elem-set (k ∷ keys) (suc i) (suc j) v key e = elim (elem-set keys i j v key e) [
  | inl u ↦ inl u
  | inr r ↦ inr (r.0, λ z. r.1 (omega (arith, z)))
]

-- A key other than all zeros that stands in no slot but `i` is not accepted after slot `i` is removed.
pub remove_public_key-rejected :
    (key_size i : ℕ) (q : List ℕ) (keys : List AuthorizedKey)
    → ((j : ℕ) (key : AuthorizedKey) → get_elem? keys j ≡ some key → key.pubkey ≡ q → j ≡ i)
    → replicate key_size 0 ≢ q
    → can_use_key true q (remove_public_key key_size i keys) ≡ false
unfolding remove_public_key
remove_public_key-rejected key_size i q keys only nonzero =
    can_use_key-contains q (remove_public_key key_size i keys)
    ∙ not_contains q (remove_public_key key_size i keys) (λ j key e same.
      elim (Bool-cases (ltb i (length keys))) [
        | inl x ↦
            elim (elem-set keys i j (cleared key_size) key (
              sym (ap (λ b. get_elem? (if b then set keys i (cleared key_size) else keys) j) x)
              ∙ e)) [
                | inl c ↦ nonzero (ap (λ k. k.pubkey) c ∙ same)
                | inr r ↦ r.1 (only j key r.0 same)
              ]
        | inr y ↦
            let f : get_elem? keys j ≡ some key =
              sym (ap (λ b. get_elem? (if b then set keys i (cleared key_size) else keys) j) y)
              ∙ e in
            let at : j ≡ i = only j key f same in
            let here : j < length keys = get_elem?-some-lt keys j key f in ground arith
      ])

-- After the removal of a slot in range `CanUseKey` accepts the public key of zero bytes.
pub remove_public_key-zero :
    (key_size i : ℕ) (keys : List AuthorizedKey)
    → i < length keys
    → can_use_key true (replicate key_size 0) (remove_public_key key_size i keys) ≡ true
unfolding remove_public_key
remove_public_key-zero key_size i keys h =
    let e : ltb i (length keys) ≡ true = ground arith in
    can_use_key-contains (replicate key_size 0) (remove_public_key key_size i keys)
    ∙ rw e (contains-set_self keys i (cleared key_size) h)
