-- ===== src/Services/Ntp/Clock.antt =====
-- The difference of the local clock and the server's.
use common_embedded_platform.Prelude.{
  ℕ, ◌+◌, ◌-◌, ◌*◌, ◌≤◌, ◌<◌, ◌≡◌, ap, ◌∙◌, u32, sub32, ltb, if◌then◌else◌, if-either, arith,
}
use common_embedded_platform.Services.Ntp.{CalendarTime, subsec_of, delta_seconds, clock_error}

-- The seconds of a month that have passed, and the ticks of 100 us.
abbrev pub seconds : CalendarTime → ℕ
seconds t = t.mday * 86400 + t.hour * 3600 + t.min * 60 + t.sec

abbrev pub ticks : CalendarTime → ℕ → ℕ
ticks t subsec = seconds t * 10000 + subsec

abbrev pub IsCalendar : CalendarTime → Type 0
IsCalendar t = (t.mday < 32) × (t.hour < 24) × (t.min < 60) × (t.sec < 61)

delta_seconds-sub :
    (a b : CalendarTime)
    → IsCalendar a
    → IsCalendar b
    → delta_seconds a b ≡ sub32 (seconds a) (seconds b)
delta_seconds-sub a b ha hb = omega (arith, ha.0, ha.1, ha.2, ha.3, hb.0, hb.1, hb.2, hb.3)

-- The two ways to compute it, from the numbers of seconds.
error_of_seconds :
    (a b x y : ℕ)
    → a < 2851200
    → b < 2851200
    → x < 10000
    → y < 10000
    → (if ltb x y
        then u32 (u32 (sub32 (sub32 a b) 1 * 10000) + (x + 10000 - y))
        else u32 (u32 (sub32 a b * 10000) + (x - y)))
      ≡ u32 (a * 10000 + x + 42949672960000 - (b * 10000 + y))
error_of_seconds a b x y ha hb hx hy =
    let goal = u32 (a * 10000 + x + 42949672960000 - (b * 10000 + y)) in
    if-either (λ r. r ≡ goal) (ltb x y) (u32 (u32 (sub32 (sub32 a b) 1 * 10000) + (x + 10000 - y)))
      (u32 (u32 (sub32 a b * 10000) + (x - y)))
      (λ h. let less : x < y = ground arith in omega (arith, less, ha, hb, hx, hy))
      (λ h. let more : y ≤ x = ground arith in omega (arith, more, ha, hb, hx, hy))

clock_error-mod :
    (old new : CalendarTime) (x y : ℕ)
    → IsCalendar old
    → IsCalendar new
    → x < 10000
    → y < 10000
    → clock_error old x new y ≡ u32 (ticks old x + 42949672960000 - ticks new y)
unfolding clock_error
clock_error-mod old new x y ho hn hx hy =
    ap
      (λ d.
        if ltb x y
        then u32 (u32 (sub32 d 1 * 10000) + (x + 10000 - y))
        else u32 (u32 (d * 10000) + (x - y)))
      (delta_seconds-sub old new ho hn)
    ∙ error_of_seconds (seconds old) (seconds new) x y (omega (arith, ho.0, ho.1, ho.2, ho.3))
        (omega (arith, hn.0, hn.1, hn.2, hn.3)) hx hy

-- For two calendar times of a month and a fraction of a second from the server, where the local clock is
-- ahead by less than 2 ^ 32 ticks or behind by at most 2 ^ 32 ticks: a local clock that is not behind gives
-- the ticks that it is ahead; one that is behind gives 2 ^ 32 less the ticks that it is behind, not a
-- negative number.
pub clock_error-ticks :
    (old new : CalendarTime) (x frac : ℕ)
    → IsCalendar old
    → IsCalendar new
    → x < 10000
    → frac < 4294967296
    → ticks old x < ticks new (subsec_of frac) + 4294967296
    → ticks new (subsec_of frac) ≤ ticks old x + 4294967296
    → clock_error old x new (subsec_of frac) ≡ (
        if ltb (ticks old x) (ticks new (subsec_of frac))
        then 4294967296 - (ticks new (subsec_of frac) - ticks old x)
        else ticks old x - ticks new (subsec_of frac))
clock_error-ticks old new x frac ho hn hx hf ahead behind =
    let y = subsec_of frac in
    let small : y < 10000 = omega (arith, hf) in
    let all = clock_error-mod old new x y ho hn hx small in
    if-either (λ r. clock_error old x new y ≡ r) (ltb (ticks old x) (ticks new y))
      (4294967296 - (ticks new y - ticks old x)) (ticks old x - ticks new y)
      (λ h.
        let less : ticks old x < ticks new y = ground arith in all ∙ omega (arith, less, behind))
      (λ h. let more : ticks new y ≤ ticks old x = ground arith in all ∙ omega (arith, more, ahead))
