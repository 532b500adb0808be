-- ===== src/Services/Ntp.antt =====
-- The configuration of the NTP client (services/STM32NTPClient.cpp), and its time arithmetic. The key-value store is of another
-- repository: it is a parameter. A value is a number: a Boolean is 0 or 1, an address and an offset
-- are their bits.
pub mod Storage
pub mod Clock
use common_embedded_platform.Prelude.{
  ℕ, ◌+◌, ◌-◌, ◌*◌, ◌/◌, u32, u16, sub32, ltb, ◌≡◌, ◌≢◌, Bool, true, false, not, ◌&&◌, Option, none,
  some, ◌==◌, if◌then◌else◌,
}

pub data NtpKey : Type 0 where
  ntp_enable ntp_server ntp_tzoffset : NtpKey

pub record ObjectStore (S : Type 0) : Type 0 where
  pub find : NtpKey → S → Option ℕ
  -- `StoreObjectIfNecessary` of a value, with the default that stands for an object that is not there.
  pub store_if_necessary : NtpKey → ℕ → ℕ → S → Bool × S

-- `ReadObject` with a default.
abbrev pub or_default : ℕ → Option ℕ → ℕ
or_default d none = d
or_default d (some v) = v

-- Unless it reports an error, the call stores the value, but not if the object or, without one, the
-- default is equal to it; other objects stay as they are.
pub record IsObjectStore {S : Type 0} (kvs : ObjectStore S) : Type 0 where
  pub stores :
      (k : NtpKey) (v d : ℕ) (s : S)
      → (kvs.store_if_necessary k v d s).0 ≡ true
      → kvs.find k (kvs.store_if_necessary k v d s).1
        ≡ (if or_default d (kvs.find k s) == v then kvs.find k s else some v)
  pub keeps :
      (k k' : NtpKey) (v d : ℕ) (s : S)
      → k ≢ k'
      → kvs.find k' (kvs.store_if_necessary k v d s).1 ≡ kvs.find k' s

-- What the client keeps of its configuration.
pub record NtpConfig : Type 0 where
  pub enabled : Bool
  pub server_address : ℕ
  pub utc_offset : ℕ

abbrev pub truth : Bool → ℕ
truth true = 1
truth false = 0

-- -8 * 3600 in 64 bits.
abbrev pub default_offset : ℕ
default_offset = 18446744073709522816

module _ {S : Type 0} (kvs : ObjectStore S) (default_server : ℕ) where
  -- `LoadConfigFromKVS`.
  unfoldable pub load_config : S → NtpConfig
  load_config s = record {
    enabled = not (or_default (truth true) (kvs.find ntp_enable s) == 0);
    server_address = or_default default_server (kvs.find ntp_server s);
    utc_offset = or_default default_offset (kvs.find ntp_tzoffset s);
  }

  -- `SaveConfigToKVS`: whether the three calls went well.
  unfoldable pub save_config : NtpConfig → S → Bool × S
  save_config c s =
      let a = kvs.store_if_necessary ntp_enable (truth c.enabled) (truth false) s in
      let b = kvs.store_if_necessary ntp_server c.server_address default_server a.1 in
      let d = kvs.store_if_necessary ntp_tzoffset c.utc_offset default_offset b.1 in
      (a.0 && (b.0 && d.0), d.1)

-- The fields of `tm` that `OnTimeUpdated` compares.
pub record CalendarTime : Type 0 where
  pub mday : ℕ
  pub hour : ℕ
  pub min : ℕ
  pub sec : ℕ

-- Ticks of 100 us from a fraction in units of 2 ^ -32 s.
abbrev pub subsec_of : ℕ → ℕ
subsec_of frac = u16 (frac / 4295 / 100)

-- `dsec` before it is normalised; a negative number is its pattern of 32 bits.
abbrev pub delta_seconds : CalendarTime → CalendarTime → ℕ
delta_seconds rtctime cracked = u32 (
    sub32 rtctime.sec cracked.sec
    + sub32 rtctime.min cracked.min * 60
    + sub32 rtctime.hour cracked.hour * 3600
    + sub32 rtctime.mday cracked.mday * 86400)

-- `error`: the product with `rtcTicksPerSec` and the sum are of type `uint32_t`.
unfoldable pub clock_error : CalendarTime → ℕ → CalendarTime → ℕ → ℕ
clock_error rtctime rtcsubsec cracked subsec =
    let dsec = delta_seconds rtctime cracked in
    if ltb rtcsubsec subsec
    then u32 (u32 (sub32 dsec 1 * 10000) + (rtcsubsec + 10000 - subsec))
    else u32 (u32 (dsec * 10000) + (rtcsubsec - subsec))
