-- ===== src/Bootloader/Boot/Decisions.antt =====
-- Which images are booted.
use common_embedded_platform.Prelude.{
  ℕ, ◌≡◌, ◌≢◌, ◌⊎◌, refl, sym, ap, ◌∙◌, Bool, true, false, not, Option, none, some, List, arith,
  bytes_eq_refl, c_string, ◌==◌, ==_refl, if◌then◌else◌, Bool-cases, inl, inr, subst,
}
use common_embedded_platform.Core.BuildId.{format_build_id, hex_from}
use common_embedded_platform.Bootloader.Boot.{
  Kvs, IsStore, Platform, BootState, state_por, state_app, state_dfu, state_crash, state_unknown,
  Decision, boot_application, firmware_update_flow, is_vector_blank, version_note, has_build_id,
  differs_from, is_app_updated, expected_crc, save_image, compare_crc, validate_app_partition,
  boot_if, main_loop,
}

abbrev is_boot : Decision → Bool
is_boot boot_application = true
is_boot firmware_update_flow = false

module _ (platform : Platform) {S : Type 0} (kvs : Kvs S) where
  validate-open :
      (image : List ℕ) (s : S)
      → is_vector_blank image ≡ false
      → platform.ecc_fails image ≡ false
      → validate_app_partition platform kvs image s
        ≡ compare_crc platform kvs (expected_crc platform kvs image s) image s
  unfolding validate_app_partition
  validate-open image s b e = rw (b, e) refl

  validate-blank :
      (image : List ℕ) (s : S)
      → is_vector_blank image ≡ true
      → validate_app_partition platform kvs image s ≡ (false, s)
  unfolding validate_app_partition
  validate-blank image s b = rw b refl

  validate-ecc :
      (image : List ℕ) (s : S)
      → is_vector_blank image ≡ false
      → platform.ecc_fails image ≡ true
      → validate_app_partition platform kvs image s ≡ (false, s)
  unfolding validate_app_partition
  validate-ecc image s b e = rw (b, e) refl

  -- A partition that is refused before the CRC, or the comparison.
  validate-cases :
      (image : List ℕ) (s : S)
      → (validate_app_partition platform kvs image s ≡ (false, s))
        ⊎ ((is_vector_blank image ≡ false) × (platform.ecc_fails image ≡ false))
  validate-cases image s = elim (Bool-cases (is_vector_blank image)) [
    | inl b ↦ inl (validate-blank image s b)
    | inr b ↦ elim (Bool-cases (platform.ecc_fails image)) [
      | inl e ↦ inl (validate-ecc image s b e)
      | inr e ↦ inr (b, e)
    ]
  ]

  expected_crc-same :
      (image : List ℕ) (s : S)
      → is_app_updated platform kvs image s ≡ false
      → expected_crc platform kvs image s ≡ kvs.find_crc s
  expected_crc-same image s same = rw same refl

  validate-mismatch :
      (image : List ℕ) (crc : ℕ) (s : S)
      → is_app_updated platform kvs image s ≡ false
      → kvs.find_crc s ≡ some crc
      → platform.checksum image ≢ crc
      → validate_app_partition platform kvs image s ≡ (false, s)
  validate-mismatch image crc s same found ne =
      let e = expected_crc-same image s same ∙ found in
      let differs : (platform.checksum image == crc) ≡ false = ground (arith, ne) in
      elim (validate-cases image s) [
        | inl r ↦ r
        | inr c ↦
            validate-open image s c.0 c.1
            ∙ ap (λ o. compare_crc platform kvs o image s) e
            ∙ ap (λ b. (b, s)) differs
      ]

  -- An image that is not taken for an update and whose CRC is not the saved one is not booted, whatever the
  -- reason for the last reset was, and the store stays as it is.
  pub corrupt_image :
      (state : BootState) (image : List ℕ) (crc : ℕ) (s : S)
      → is_app_updated platform kvs image s ≡ false
      → kvs.find_crc s ≡ some crc
      → platform.checksum image ≢ crc
      → main_loop platform kvs state image s ≡ (firmware_update_flow, s)
  unfolding main_loop
  corrupt_image state_dfu image crc s same found ne = refl
  corrupt_image state_crash image crc s same found ne = rw same refl
  corrupt_image state_por image crc s same found ne =
      ap (boot_if platform kvs) (validate-mismatch image crc s same found ne)
  corrupt_image state_app image crc s same found ne =
      ap (boot_if platform kvs) (validate-mismatch image crc s same found ne)
  corrupt_image state_unknown image crc s same found ne =
      ap (boot_if platform kvs) (validate-mismatch image crc s same found ne)

  differs_from_self :
      (image : List ℕ)
      → differs_from platform kvs
          (some (format_build_id (version_note platform kvs image)))
          (format_build_id (version_note platform kvs image))
        ≡ false
  unfolding format_build_id hex_from
  differs_from_self image =
      ap not (bytes_eq_refl (c_string (format_build_id (version_note platform kvs image))))

  -- A version that was just saved is not an update.
  saved_version :
      IsStore kvs
      → (image : List ℕ) (s : S)
      → is_app_updated platform kvs image (save_image platform kvs image s) ≡ false
  unfolding is_app_updated
  saved_version store image s =
      let version = format_build_id (version_note platform kvs image) in
      let found : kvs.find_version (save_image platform kvs image s) ≡ some version =
        store.version_other (kvs.store_version s version) (platform.checksum image)
        ∙ store.version_same s version in
      elim (Bool-cases (has_build_id platform kvs image)) [
        | inl h ↦
            rw h (ap (λ o. differs_from platform kvs o version) found ∙ differs_from_self image)
        | inr h ↦ rw h refl
      ]

  -- After a comparison that passed, the CRC expected next time is the CRC of the image.
  expected_crc-after :
      IsStore kvs
      → (image : List ℕ) (s : S) (o : Option ℕ) → expected_crc platform kvs image s ≡ o
      → (compare_crc platform kvs o image s).0 ≡ true
      → expected_crc platform kvs image (compare_crc platform kvs o image s).1
        ≡ some (platform.checksum image)
  expected_crc-after store image s none e h =
      expected_crc-same image (save_image platform kvs image s) (saved_version store image s)
      ∙ store.crc_same (kvs.store_version s (format_build_id (version_note platform kvs image)))
          (platform.checksum image)
  expected_crc-after store image s (some crc) e h =
      let same : platform.checksum image ≡ crc = ground arith in e ∙ ap some (sym same)

  validated :
      IsStore kvs
      → (image : List ℕ) (s : S) → (validate_app_partition platform kvs image s).0 ≡ true
      → (is_vector_blank image ≡ false)
        × (platform.ecc_fails image ≡ false)
        × (expected_crc platform kvs image (validate_app_partition platform kvs image s).1
            ≡ some (platform.checksum image))
  validated store image s h = elim (validate-cases image s) [
    | inl r ↦ absurd (ground (arith, sym (ap (λ p. p.0) r) ∙ h))
    | inr c ↦
        let compared = validate-open image s c.0 c.1 in
        (
          c.0,
          c.1,
          ap (λ p. expected_crc platform kvs image p.1) compared
              ∙ expected_crc-after store image s (expected_crc platform kvs image s) refl
                  (sym (ap (λ p. p.0) compared) ∙ h),
        )
  ]

  -- An image that passes `ValidateAppPartition` passes it again with the store that it left, and then nothing
  -- is written, if the store keeps its laws.
  pub validate_app_partition-again :
      IsStore kvs
      → (image : List ℕ) (s : S) → (validate_app_partition platform kvs image s).0 ≡ true
      → validate_app_partition platform kvs image (validate_app_partition platform kvs image s).1
        ≡ (true, (validate_app_partition platform kvs image s).1)
  validate_app_partition-again store image s h =
      let v = validated store image s h in
      let after = (validate_app_partition platform kvs image s).1 in
      validate-open image after v.0 v.1
      ∙ ap (λ o. compare_crc platform kvs o image after) v.2
      ∙ ap (λ b. (b, after)) (==_refl (platform.checksum image))

  not_updated :
      (image : List ℕ) (crc : ℕ) (s : S)
      → expected_crc platform kvs image s ≡ some crc
      → is_app_updated platform kvs image s ≡ false
  not_updated image crc s e = elim (Bool-cases (is_app_updated platform kvs image s)) [
    | inl x ↦ absurd (ground (arith, sym (ap (λ b. if b then none else kvs.find_crc s) x) ∙ e))
    | inr y ↦ y
  ]

  crash-not_updated :
      (image : List ℕ) (s : S)
      → is_app_updated platform kvs image s ≡ false
      → main_loop platform kvs state_crash image s ≡ (firmware_update_flow, s)
  unfolding main_loop
  crash-not_updated image s e = rw e refl

  crash-updated :
      (image : List ℕ) (s : S)
      → is_app_updated platform kvs image s ≡ true
      → main_loop platform kvs state_crash image s
        ≡ boot_if platform kvs (validate_app_partition platform kvs image s)
  unfolding main_loop
  crash-updated image s e = rw e refl

  boot_if-crash :
      IsStore kvs
      → (image : List ℕ) (s : S)
      → (boot_if platform kvs (validate_app_partition platform kvs image s)).0 ≡ boot_application
      → main_loop platform kvs state_crash image (validate_app_partition platform kvs image s).1
        ≡ (firmware_update_flow, (validate_app_partition platform kvs image s).1)
  boot_if-crash store image s h =
      let after = (validate_app_partition platform kvs image s).1 in
      elim (Bool-cases (validate_app_partition platform kvs image s).0) [
        | inl v ↦
            crash-not_updated image after
              (not_updated image (platform.checksum image) after (validated store image s v).2)
        | inr n ↦ absurd (
            ground (
              arith,
              sym (ap (λ b. is_boot (if b then boot_application else firmware_update_flow)) n)
                  ∙ ap is_boot h,
            ))
      ]

  -- An image that the main loop booted is not booted again after a crash: the firmware update flow is entered
  -- and the store stays as it is, if the store keeps its laws.
  pub crashed_image :
      IsStore kvs
      → (state : BootState) (image : List ℕ) (s : S)
      → (main_loop platform kvs state image s).0 ≡ boot_application
      → main_loop platform kvs state_crash image (main_loop platform kvs state image s).1
        ≡ (firmware_update_flow, (main_loop platform kvs state image s).1)
  unfolding main_loop
  crashed_image store state_dfu image s h = absurd (ground (arith, ap is_boot h))
  crashed_image store state_crash image s h =
      elim (Bool-cases (is_app_updated platform kvs image s)) [
        | inl x ↦
            subst
              (λ q.
                q.0 ≡ boot_application
                → main_loop platform kvs state_crash image q.1 ≡ (firmware_update_flow, q.1))
              (sym (crash-updated image s x)) (boot_if-crash store image s) h
        | inr y ↦ absurd (
            ground
              (arith, sym (ap (λ q. is_boot q.0) (crash-not_updated image s y)) ∙ ap is_boot h))
      ]
  crashed_image store state_por image s h = boot_if-crash store image s h
  crashed_image store state_app image s h = boot_if-crash store image s h
  crashed_image store state_unknown image s h = boot_if-crash store image s h
