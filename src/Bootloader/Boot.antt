-- ===== src/Bootloader/Boot.antt =====
-- `IsAppUpdated`, `ValidateAppPartition`, `GetImageVersion` and `Bootloader_MainLoop`. The application
-- partition is a list of bytes. The CRC unit and the flash controller are of another repository, as is the
-- key-value store, of which the code uses two objects: they are parameters.
pub mod Decisions
use common_embedded_platform.Prelude.{
  ℕ, zero, suc, ◌+◌, ◌*◌, ◌≡◌, Bool, true, false, not, ◌&&◌, ◌||◌, Option, none, some, List, [],
  ◌∷◌, length, get_or, take, drop, bytes_eq, c_string, ◌==◌, if◌then◌else◌,
}
use common_embedded_platform.Core.BuildId.{format_build_id}

-- The objects of g_imageVersionKey and g_imageCRCKey in the store.
pub record Kvs (S : Type 0) : Type 0 where
  pub find_version : S → Option (List ℕ)
  pub find_crc : S → Option ℕ
  pub store_version : S → List ℕ → S
  pub store_crc : S → ℕ → S

-- The laws: an object that was stored is found, and the other one stays.
pub record IsStore {S : Type 0} (kvs : Kvs S) : Type 0 where
  pub version_same : (s : S) (v : List ℕ) → kvs.find_version (kvs.store_version s v) ≡ some v
  pub version_other : (s : S) (c : ℕ) → kvs.find_version (kvs.store_crc s c) ≡ kvs.find_version s
  pub crc_same : (s : S) (c : ℕ) → kvs.find_crc (kvs.store_crc s c) ≡ some c

-- What does not change while the bootloader runs: `checksum` is CRC::Checksum over the partition,
-- `ecc_fails` whether reading the partition finds an uncorrectable ECC error (never without
-- HAVE_FLASH_ECC), `version_offset` is g_appVersionOffset and `header` is g_gnuBuildIdHeader.
pub record Platform : Type 0 where
  pub checksum : List ℕ → ℕ
  pub ecc_fails : List ℕ → Bool
  pub version_offset : ℕ
  pub header : List ℕ

-- Why the last reset came: the values of `m_state` in battery backed RAM.
pub data BootState : Type 0 where
  state_por state_app state_dfu state_crash state_unknown : BootState

pub data Decision : Type 0 where
  boot_application firmware_update_flow : Decision

-- The first word of the vector table.
abbrev pub is_vector_blank : List ℕ → Bool
is_vector_blank image =
    (get_or image 0 0 == 255)
    && (get_or image 1 0 == 255)
    && (get_or image 2 0 == 255)
    && (get_or image 3 0 == 255)

module _ (platform : Platform) {S : Type 0} (kvs : Kvs S) where
  abbrev pub version_note : List ℕ → List ℕ
  version_note image = drop platform.version_offset image

  abbrev pub has_build_id : List ℕ → Bool
  has_build_id image = bytes_eq (take (length platform.header) (version_note image)) platform.header

  -- The comparison with the version in the store.
  abbrev pub differs_from : Option (List ℕ) → List ℕ → Bool
  differs_from none version = true
  differs_from (some known) version =
      if length known == 41 then not (bytes_eq (c_string known) (c_string version)) else true

  unfoldable pub is_app_updated : List ℕ → S → Bool
  is_app_updated image s =
      if has_build_id image
      then differs_from (kvs.find_version s) (format_build_id (version_note image))
      else false

  unfoldable pub get_image_version : List ℕ → Option (List ℕ)
  get_image_version image =
      if has_build_id image then some (format_build_id (version_note image)) else none

  -- The saved CRC, if there is one to compare with.
  abbrev pub expected_crc : List ℕ → S → Option ℕ
  expected_crc image s = if is_app_updated image s then none else kvs.find_crc s

  abbrev pub save_image : List ℕ → S → S
  save_image image s =
      kvs.store_crc (kvs.store_version s (format_build_id (version_note image)))
        (platform.checksum image)

  abbrev pub compare_crc : Option ℕ → List ℕ → S → Bool × S
  compare_crc none image s = (true, save_image image s)
  compare_crc (some expected) image s = (platform.checksum image == expected, s)

  unfoldable pub validate_app_partition : List ℕ → S → Bool × S
  validate_app_partition image s =
      if is_vector_blank image
      then (false, s)
      else if platform.ecc_fails image
      then (false, s)
      else compare_crc (expected_crc image s) image s

  abbrev pub boot_if : Bool × S → Decision × S
  boot_if (valid, s) = (if valid then boot_application else firmware_update_flow, s)

  unfoldable pub main_loop : BootState → List ℕ → S → Decision × S
  main_loop state_dfu image s = (firmware_update_flow, s)
  main_loop state_crash image s =
      if is_app_updated image s
      then boot_if (validate_app_partition image s)
      else (firmware_update_flow, s)
  main_loop state_por image s = boot_if (validate_app_partition image s)
  main_loop state_app image s = boot_if (validate_app_partition image s)
  main_loop state_unknown image s = boot_if (validate_app_partition image s)
