-- ===== src/Services/NtpTests.antt =====
-- Runs of the NTP client.
use common_embedded_platform.Prelude.{
  ℕ, ◌-◌, ◌≡◌, refl, ap, if◌then◌else◌, ◌==◌, ◌≢◌, ltb, Bool, true, false, Option, none, some,
  arith,
}
use common_embedded_platform.Services.Ntp.{
  NtpKey, ntp_enable, ntp_server, ntp_tzoffset, ObjectStore, or_default, IsObjectStore, NtpConfig,
  CalendarTime, subsec_of, clock_error, load_config, save_config,
}
use common_embedded_platform.Services.Ntp.Storage.{load_config-save_config}
use common_embedded_platform.Services.Ntp.Clock.{ticks, clock_error-ticks}

-- A store of the three objects.
abbrev Objects : Type 0
Objects = NtpKey → Option ℕ

abbrev same_key : NtpKey → NtpKey → Bool
same_key ntp_enable ntp_enable = true
same_key ntp_server ntp_server = true
same_key ntp_tzoffset ntp_tzoffset = true
same_key _ _ = false

abbrev put_object : NtpKey → ℕ → ℕ → Objects → Bool × Objects
put_object k v d s =
    let new = if or_default d (s k) == v then s k else some v in
    (true, λ k'. if same_key k k' then new else s k')

abbrev objects : ObjectStore Objects
objects = record { find = λ k s. s k; store_if_necessary = put_object }

same_key_refl : (k : NtpKey) → same_key k k ≡ true
same_key_refl ntp_enable = refl
same_key_refl ntp_server = refl
same_key_refl ntp_tzoffset = refl

other_key : (k k' : NtpKey) → k ≢ k' → same_key k k' ≡ false
other_key k k' h = ground arith

objects-IsObjectStore : IsObjectStore objects
objects-IsObjectStore = record {
  stores = λ k v d s ok.
      ap (λ b. if b then (if or_default d (s k) == v then s k else some v) else s k)
        (same_key_refl k);
  keeps = λ k k' v d s apart.
      ap (λ b. if b then (if or_default d (s k) == v then s k else some v) else s k')
        (other_key k k' apart);
}

-- A client that was disabled, stored in an empty store, is loaded as enabled.
abbrev disabled : NtpConfig
disabled = record { enabled = false; server_address = 7; utc_offset = 0 }

abbrev nothing : Objects
nothing k = none

disabled_saved : (save_config objects 5 disabled nothing).0 ≡ true
unfolding save_config
disabled_saved = refl

load_config-save_config_example :
    load_config objects 5 (save_config objects 5 disabled nothing).1
    ≡ record { enabled = true; server_address = 7; utc_offset = 0 }
load_config-save_config_example =
    load_config-save_config objects objects-IsObjectStore 5 disabled nothing disabled_saved

abbrev noon : CalendarTime
noon = record { mday = 5; hour = 12; min = 0; sec = 0 }

abbrev a_second_later : CalendarTime
a_second_later = record { mday = 5; hour = 12; min = 0; sec = 1 }

-- A clock that is a second behind.
clock_error-ticks_example : clock_error noon 0 a_second_later (subsec_of 0) ≡ (
    if ltb (ticks noon 0) (ticks a_second_later (subsec_of 0))
    then 4294967296 - (ticks a_second_later (subsec_of 0) - ticks noon 0)
    else ticks noon 0 - ticks a_second_later (subsec_of 0))
clock_error-ticks_example =
    clock_error-ticks noon a_second_later 0 0 (omega arith, omega arith, omega arith, omega arith)
      (omega arith, omega arith, omega arith, omega arith) (omega arith) (omega arith) (omega arith)
      (omega arith)
