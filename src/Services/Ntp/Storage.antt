-- ===== src/Services/Ntp/Storage.antt =====
-- Saving the configuration and loading it.
use common_embedded_platform.Prelude.{
  ℕ, ◌≡◌, refl, ap, ◌∙◌, Bool, true, false, not, ◌&&◌, ◌||◌, Option, none, some, ◌==◌, ==_iff,
  if◌then◌else◌, if-either, arith,
}
use common_embedded_platform.Services.Ntp.{
  ntp_enable, ntp_server, ntp_tzoffset, ObjectStore, or_default, IsObjectStore, NtpConfig, truth,
  default_offset, load_config, save_config,
}

abbrev pub is_none : Option ℕ → Bool
is_none none = true
is_none (some v) = false

-- An object that is read with the default it was stored with.
reads_back : (d v : ℕ) (o : Option ℕ) → or_default d (if or_default d o == v then o else some v) ≡ v
reads_back d v o =
    if-either (λ r. or_default d r ≡ v) (or_default d o == v) o (some v)
      (λ x. (==_iff (or_default d o) v).0 x) (λ y. refl)

-- The flag, which is stored with the default false and read with the default true.
reads_flag :
    (enabled : Bool) (o : Option ℕ)
    → not (or_default 1 (if or_default 0 o == truth enabled then o else some (truth enabled)) == 0)
      ≡ enabled || is_none o
reads_flag true none = refl
reads_flag false none = refl
reads_flag true (some v) = ground arith
reads_flag false (some v) = ground arith

and_three : (a b c : Bool) → (a && (b && c)) ≡ true → (a ≡ true) × (b ≡ true) × (c ≡ true)
and_three a b c h = ground arith

module _ {S : Type 0} (kvs : ObjectStore S) (law : IsObjectStore kvs) (default_server : ℕ) where
  -- If the store reports no error, the configuration that was saved is loaded again, except that the
  -- client is loaded as enabled whenever there was no object for the flag before.
  pub load_config-save_config :
      (c : NtpConfig) (s : S)
      → (save_config kvs default_server c s).0 ≡ true
      → load_config kvs default_server (save_config kvs default_server c s).1
        ≡ record c { enabled = c.enabled || is_none (kvs.find ntp_enable s) }
  unfolding load_config save_config
  load_config-save_config c s ok =
      let a = kvs.store_if_necessary ntp_enable (truth c.enabled) 0 s in
      let b = kvs.store_if_necessary ntp_server c.server_address default_server a.1 in
      let d = kvs.store_if_necessary ntp_tzoffset c.utc_offset default_offset b.1 in
      let all = and_three a.0 b.0 d.0 ok in
      let flag =
        law.keeps ntp_tzoffset ntp_enable c.utc_offset default_offset b.1 (λ e. ground arith)
        ∙ law.keeps ntp_server ntp_enable c.server_address default_server a.1 (λ e. ground arith)
        ∙ law.stores ntp_enable (truth c.enabled) 0 s all.0 in
      let server =
        law.keeps ntp_tzoffset ntp_server c.utc_offset default_offset b.1 (λ e. ground arith)
        ∙ law.stores ntp_server c.server_address default_server a.1 all.1 in
      let offset = law.stores ntp_tzoffset c.utc_offset default_offset b.1 all.2 in
      let flagged =
        ap (λ o. not (or_default 1 o == 0)) flag ∙ reads_flag c.enabled (kvs.find ntp_enable s) in
      let addressed =
        ap (λ o. or_default default_server o) server
        ∙ reads_back default_server c.server_address (kvs.find ntp_server a.1) in
      let shifted =
        ap (λ o. or_default default_offset o) offset
        ∙ reads_back default_offset c.utc_offset (kvs.find ntp_tzoffset b.1) in
      λ i. record { enabled = flagged i; server_address = addressed i; utc_offset = shifted i }
