-- ===== src/Access/Keys/Storage.antt =====
-- What is committed to flash is what is loaded after a restart.
use common_embedded_platform.Prelude.{
  ℕ, suc, ◌+◌, ◌<◌, ◌≤◌, ◌≡◌, ◌≢◌, refl, sym, ap, ◌∙◌, ◌&&◌, List, [], ◌∷◌, arith, length,
  if◌then◌else◌, Bool-cases, Option-cases, inl, inr,
}
use common_embedded_platform.Access.Keys.{
  AuthorizedKey, Kvs, IsStore, is_blank, cleared, or_default, is_missing, load_slots, load_from_kvs,
  commit_slot, commit_slots, commit_to_kvs,
}

module _ {Name S : Type 0} (kvs : Kvs Name S) (slot_name : ℕ → Name) (key_size : ℕ) where
  commit_slot-other :
      IsStore kvs
      → (i : ℕ) (key : AuthorizedKey) (s : S) (n : Name) → slot_name i ≢ n
      → kvs.find_object (commit_slot kvs slot_name key_size i key s).1 n ≡ kvs.find_object s n
  unfolding commit_slot
  commit_slot-other store i key s n ne =
      elim (Bool-cases (is_blank key && is_missing (kvs.find_object s (slot_name i)))) [
        | inl x ↦ rw x refl
        | inr y ↦ rw y (
            store.store_other s (slot_name i) n (if is_blank key then cleared key_size else key)
              (cleared key_size) ne)
      ]

  commit_slot-same :
      IsStore kvs
      → (i : ℕ) (key : AuthorizedKey) (s : S)
      → or_default
          (cleared key_size)
          (kvs.find_object (commit_slot kvs slot_name key_size i key s).1 (slot_name i))
        ≡ (commit_slot kvs slot_name key_size i key s).0
  unfolding commit_slot
  commit_slot-same store i key s = elim (Bool-cases (is_blank key)) [
    | inl x ↦ elim (Option-cases (kvs.find_object s (slot_name i))) [
      | inl e ↦ rw (x, e) (ap (or_default (cleared key_size)) e)
      | inr e ↦ rw (x, e.1) (store.store_same s (slot_name i) (cleared key_size) (cleared key_size))
    ]
    | inr y ↦ rw y (store.store_same s (slot_name i) key (cleared key_size))
  ]

  commit_slots-other :
      IsStore kvs
      → (i : ℕ) (keys : List AuthorizedKey) (s : S) (n : Name)
      → ((j : ℕ) → i ≤ j → j < i + length keys → slot_name j ≢ n)
      → kvs.find_object (commit_slots kvs slot_name key_size i keys s).1 n ≡ kvs.find_object s n
  unfolding commit_slots
  commit_slots-other store i [] s n ne = refl
  commit_slots-other store i (key ∷ keys) s n ne =
      commit_slots-other store (suc i) keys (commit_slot kvs slot_name key_size i key s).1 n
        (λ j p q. ne j (omega (arith, p)) (omega (arith, q)))
      ∙ commit_slot-other store i key s n (ne i (omega arith) (omega arith))

  commit_slots-load :
      IsStore kvs
      → (i : ℕ) (keys : List AuthorizedKey) (s : S)
      → ((j k : ℕ) → j < k → k < i + length keys → slot_name j ≢ slot_name k)
      → load_slots kvs slot_name key_size
          (length keys)
          i
          (commit_slots kvs slot_name key_size i keys s).1
        ≡ (commit_slots kvs slot_name key_size i keys s).0
  unfolding commit_slots load_slots
  commit_slots-load store i [] s ne = refl
  commit_slots-load store i (key ∷ keys) s ne =
      let s1 = (commit_slot kvs slot_name key_size i key s).1 in
      let kept =
        commit_slots-other store (suc i) keys s1 (slot_name i)
          (λ j p q e. ne i j (omega (arith, p)) (omega (arith, q)) (sym e)) in
      let head = ap (or_default (cleared key_size)) kept ∙ commit_slot-same store i key s in
      ap
        (λ k.
          k
          ∷ load_slots kvs slot_name key_size (length keys) (suc i)
              (commit_slots kvs slot_name key_size (suc i) keys s1).1)
        head
      ∙ ap (λ ks. (commit_slot kvs slot_name key_size i key s).0 ∷ ks)
          (commit_slots-load store (suc i) keys s1 (λ j k p q. ne j k p (omega (arith, q))))

  -- Whatever the store held, loading after a commit gives the keys as the commit left them in memory, if the
  -- slots have different names and the store keeps its laws.
  pub load_from_kvs-commit_to_kvs :
      IsStore kvs
      → (keys : List AuthorizedKey) (s : S)
      → ((j k : ℕ) → j < k → k < length keys → slot_name j ≢ slot_name k)
      → load_from_kvs kvs slot_name key_size
          (length keys)
          (commit_to_kvs kvs slot_name key_size keys s).1
        ≡ (commit_to_kvs kvs slot_name key_size keys s).0
  unfolding load_from_kvs commit_to_kvs
  load_from_kvs-commit_to_kvs store keys s ne =
      commit_slots-load store 0 keys s (λ j k p q. ne j k p (omega (arith, q)))
