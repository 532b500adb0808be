-- ===== src/Multicore/Table/Lookup.antt =====
-- What `FindChannel` returns after calls of `AllocateChannel`.
use common_embedded_platform.Prelude.{
  ℕ, zero, suc, ◌+◌, ◌≤◌, ◌<◌, ◌≡◌, ◌↔◌, length-set, refl, ◌∙◌, Option, none, some, List, [], ◌∷◌,
  leb, length, get_elem?, set, drop, All, arith, if◌then◌else◌, Bool-cases, inl, inr,
  get_elem?-in_range,
}
use native.Mathlib.Nat.{add-zero, zero-add}
use native.Mathlib.Numerals.{add-one}
use Prim.Native.String.{String}
use text.Mathlib.Text.{◌==◌ as str_eq}
use common_embedded_platform.Multicore.Table.{
  Channel, Table, open_channel, allocate, find_from, find,
}

-- The channels from the first free one on have no name, as the constructor leaves them.
pub record IsValid (t : Table) : Type 0 where
  pub in_range : t.first_free ≤ length t.channels
  pub unnamed : All (λ ch. ch.name ≡ none) (drop t.first_free t.channels)

abbrev pub or_else : Option ℕ → Option ℕ → Option ℕ
or_else none y = y
or_else (some x) y = some x

find_from-unnamed :
    (j : String) (i : ℕ) (chs : List Channel)
    → All (λ ch. ch.name ≡ none) chs
    → find_from j i chs ≡ none
unfolding find_from
find_from-unnamed j i [] u = refl
find_from-unnamed j i (ch ∷ chs) u = rw u.0 (find_from-unnamed j (suc i) chs u.1)

-- Naming the first channel without a name.
find_from-set :
    (name j : String) (i k : ℕ) (chs : List Channel) (ch' : Channel)
    → k < length chs
    → All (λ ch. ch.name ≡ none) (drop k chs)
    → ch'.name ≡ some name
    → find_from j i (set chs k ch')
      ≡ or_else (find_from j i chs) (if str_eq name j then some (i + k) else none)
unfolding find_from
find_from-set name j i k [] ch' h u e = elim h [ ]
find_from-set name j i zero (ch ∷ chs) ch' h u e =
    rw (e, u.0, find_from-unnamed j (suc i) chs u.1, add-zero)
find_from-set name j i (suc k) (ch ∷ chs) ch' h u e =
    ground (arith, find_from-set name j (suc i) k chs ch' (omega arith) u e)

set-IsValid :
    (chs : List Channel) (k : ℕ) (ch' : Channel)
    → All (λ ch. ch.name ≡ none) (drop k chs)
    → All (λ ch. ch.name ≡ none) (drop (suc k) (set chs k ch'))
set-IsValid [] k ch' u = tt
set-IsValid (ch ∷ chs) zero ch' u = u.1
set-IsValid (ch ∷ chs) (suc k) ch' u = set-IsValid chs k ch' u

allocate_free :
    (name : String) (txbuf rxbuf : List ℕ) (t : Table) (ch : Channel)
    → t.first_free < length t.channels
    → get_elem? t.channels t.first_free ≡ some ch
    → allocate name txbuf rxbuf t ≡ (
      some t.first_free,
      record {
        channels = set t.channels t.first_free (open_channel name txbuf rxbuf t.first_free ch);
        first_free = t.first_free + 1;
      },
    )
unfolding allocate
allocate_free name txbuf rxbuf t ch lt e = ground arith

-- In a valid table with a free channel, `AllocateChannel` returns that channel and keeps the table valid;
-- afterwards `FindChannel` finds under every name what it found before, and under the new name, if it
-- found nothing there, the new channel.
pub find-allocate :
    (name : String) (txbuf rxbuf : List ℕ) (t : Table)
    → IsValid t
    → t.first_free < length t.channels
    → let (chan, t') = allocate name txbuf rxbuf t in
      (chan ≡ some t.first_free)
      × IsValid t'
      × ((j : String)
          → find j t' ≡ or_else (find j t) (if str_eq name j then some t.first_free else none))
unfolding find open_channel
find-allocate name txbuf rxbuf t v lt =
    let (ch, e) = get_elem?-in_range t.channels t.first_free lt in
    let ch' = open_channel name txbuf rxbuf t.first_free ch in
    rw (allocate_free name txbuf rxbuf t ch lt e, add-one)
      (
        refl,
        record {
          in_range = omega (arith, length-set t.channels t.first_free ch');
          unnamed = set-IsValid t.channels t.first_free ch' v.unnamed;
        },
        λ j. find_from-set name j 0 t.first_free t.channels ch' lt v.unnamed refl ∙ rw zero-add,
      )

-- In a valid table `AllocateChannel` fails exactly if the table is full, and then changes nothing.
pub allocate_full :
    (name : String) (txbuf rxbuf : List ℕ) (t : Table)
    → IsValid t
    → ((allocate name txbuf rxbuf t).0 ≡ none)
      ↔ ((t.first_free ≡ length t.channels) × (allocate name txbuf rxbuf t ≡ (none, t)))
unfolding allocate
allocate_full name txbuf rxbuf t v = elim (Bool-cases (leb (length t.channels) t.first_free)) [
  | inl full ↦ rw full (λ _. (ground (arith, v.in_range), refl), λ _. refl)
  | inr free ↦
      let lt : t.first_free < length t.channels = ground arith in
      let (ch, e) = get_elem?-in_range t.channels t.first_free lt in
      rw (free, e) (λ h. absurd (cc), λ h. absurd (omega (arith, h.0)))
]
