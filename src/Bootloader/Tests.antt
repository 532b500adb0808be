-- ===== src/Bootloader/Tests.antt =====
-- Boots of a small image.
use common_embedded_platform.Prelude.{
  ℕ, ◌≡◌, ◌≢◌, refl, true, false, none, some, Option, List, [], ◌∷◌, arith, replicate, length,
}
use common_embedded_platform.Core.BuildId.{hex, hex_from, format_build_id}
use common_embedded_platform.Bootloader.Boot.{
  Kvs, IsStore, Platform, state_por, state_app, state_crash, firmware_update_flow, is_app_updated,
  validate_app_partition, main_loop,
}
use common_embedded_platform.Bootloader.Boot.Decisions.{
  corrupt_image, validate_app_partition-again, crashed_image,
}

-- The two objects of the store.
abbrev pair_store : Kvs (Option (List ℕ) × Option ℕ)
pair_store = record {
  find_version = λ s. s.0;
  find_crc = λ s. s.1;
  store_version = λ s v. (some v, s.1);
  store_crc = λ s c. (s.0, some c);
}

pair_store-IsStore : IsStore pair_store
pair_store-IsStore = record {
  version_same = λ s v. refl;
  version_other = λ s c. refl;
  crc_same = λ s c. refl;
}

-- The checksum is the length; the build ID stands after four bytes.
abbrev platform : Platform
platform = record {
  checksum = length;
  ecc_fails = λ image. false;
  version_offset = 4;
  header = 4 ∷ 0 ∷ [];
}

abbrev image : List ℕ
image = 0 ∷ 0 ∷ 0 ∷ 32 ∷ 4 ∷ 0 ∷ replicate 34 1

-- What is saved for that image, but for the checksum.
abbrev saved : Option (List ℕ) × Option ℕ
saved = (some (format_build_id (4 ∷ 0 ∷ replicate 34 1)), some 41)

forty : length image ≢ 41
forty e = let same : ◌≡◌ {A = ℕ} 40 41 = e in omega (arith, same)

corrupt_image_example :
    main_loop platform pair_store state_app image saved ≡ (firmware_update_flow, saved)
unfolding is_app_updated format_build_id hex_from hex
corrupt_image_example = corrupt_image platform pair_store state_app image 41 saved refl refl forty

validate_app_partition-again_example :
    validate_app_partition platform pair_store image
      (validate_app_partition platform pair_store image (none, none)).1
    ≡ (true, (validate_app_partition platform pair_store image (none, none)).1)
unfolding validate_app_partition is_app_updated
validate_app_partition-again_example =
    validate_app_partition-again platform pair_store pair_store-IsStore image (none, none) refl

crashed_image_example :
    main_loop platform pair_store state_crash image
      (main_loop platform pair_store state_por image (none, none)).1
    ≡ (firmware_update_flow, (main_loop platform pair_store state_por image (none, none)).1)
unfolding main_loop validate_app_partition is_app_updated
crashed_image_example =
    crashed_image platform pair_store pair_store-IsStore state_por image (none, none) refl
