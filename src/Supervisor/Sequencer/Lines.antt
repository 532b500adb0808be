-- ===== src/Supervisor/Sequencer/Lines.antt =====
-- Rails and reset lines as sets of pins: which pins an operation drives, and which it leaves alone.
use common_embedded_platform.Prelude.{
  ℕ, zero, suc, ◌≤◌, ◌<◌, ◌≡◌, ◌≢◌, refl, ap, sym, not, some, List, [], ◌∷◌, arith, All, set, drop,
  get_elem?,
}
use common_embedded_platform.Supervisor.Board.{Trace, driven}
use common_embedded_platform.Supervisor.Rail.{Rail, off_level}
use common_embedded_platform.Supervisor.Reset.{Reset, assert_level}

-- The line is held in reset, as far as the code has driven it.
abbrev pub Held : Trace → Reset → Type 0
Held t r = driven r.pin t ≡ some (assert_level r.kind)

abbrev pub IsOff : {F : Type 0} → Trace → Rail F → Type 0
IsOff t r = driven r.enable t ≡ some (off_level r.kind)

abbrev pub IsOn : {F : Type 0} → Trace → Rail F → Type 0
IsOn t r = driven r.enable t ≡ some (not (off_level r.kind))

abbrev pub pins : List Reset → List ℕ
pins [] = []
pins (r ∷ rs) = r.pin ∷ pins rs

abbrev pub enables : {F : Type 0} → List (Rail F) → List ℕ
enables [] = []
enables (r ∷ rs) = r.enable ∷ enables rs

abbrev pub Absent : ℕ → List ℕ → Type 0
Absent p ps = All (λ q. p ≢ q) ps

abbrev pub AreDistinct : List ℕ → Type 0
AreDistinct [] = Unit
AreDistinct (p ∷ ps) = Absent p ps × AreDistinct ps

-- No two lines share a pin.
pub record IsWired {F : Type 0} (rails : List (Rail F)) (resets : List Reset) : Type 0 where
  pub resets_apart : AreDistinct (pins resets)
  pub rails_apart : AreDistinct (enables rails)
  pub apart : All (λ p. Absent p (enables rails)) (pins resets)

pub pins-set :
    (rs : List Reset) (i : ℕ) (r r' : Reset)
    → get_elem? rs i ≡ some r
    → r'.pin ≡ r.pin
    → pins (set rs i r') ≡ pins rs
pins-set [] i r r' e h = refl
pins-set (x ∷ rs) zero r r' e h = let q : x ≡ r = cc in rw q (ap (λ p. p ∷ pins rs) h)
pins-set (x ∷ rs) (suc i) r r' e h = ap (λ ps. x.pin ∷ ps) (pins-set rs i r r' e h)

pub drop-set {ℓ} :
    {A : Type ℓ} (xs : List A) (i n : ℕ) (v : A) → i < n → drop n (set xs i v) ≡ drop n xs
drop-set [] i n v h = refl
drop-set (x ∷ xs) i zero v h = elim h [ ]
drop-set (x ∷ xs) zero (suc n) v h = refl
drop-set (x ∷ xs) (suc i) (suc n) v h = drop-set xs i n v (omega arith)

pub drop_drop {ℓ κ} :
    {A : Type ℓ} (P : A → Type κ) (xs : List A) (m n : ℕ)
    → m ≤ n
    → All P (drop m xs)
    → All P (drop n xs)
drop_drop P [] zero zero h a = tt
drop_drop P [] zero (suc n) h a = tt
drop_drop P [] (suc m) zero h a = tt
drop_drop P [] (suc m) (suc n) h a = tt
drop_drop P (x ∷ xs) zero zero h a = a
drop_drop P (x ∷ xs) zero (suc n) h a = drop_drop P xs zero n (omega arith) a.1
drop_drop P (x ∷ xs) (suc m) zero h a = elim h [ ]
drop_drop P (x ∷ xs) (suc m) (suc n) h a = drop_drop P xs m n (omega arith) a

-- The lines after a line have other pins.
pub later_apart :
    (rs : List Reset) (i : ℕ) (r : Reset)
    → AreDistinct (pins rs)
    → get_elem? rs i ≡ some r
    → Absent r.pin (pins (drop (suc i) rs))
later_apart [] i r d e = tt
later_apart (x ∷ rs) zero r d e = let q : x ≡ r = cc in rw q at (d.0)
later_apart (x ∷ rs) (suc i) r d e = later_apart rs i r d.1 e

pub drop-AreDistinct :
    (rs : List Reset) (n : ℕ) → AreDistinct (pins rs) → AreDistinct (pins (drop n rs))
drop-AreDistinct rs zero d = d
drop-AreDistinct [] (suc n) d = d
drop-AreDistinct (r ∷ rs) (suc n) d = drop-AreDistinct rs n d.1

pub drop-apart :
    (P : ℕ → Type 0) (rs : List Reset) (n : ℕ) → All P (pins rs) → All P (pins (drop n rs))
drop-apart P rs zero a = a
drop-apart P [] (suc n) a = tt
drop-apart P (r ∷ rs) (suc n) a = drop-apart P rs n a.1

-- Lines stay held under what drives none of their pins.
pub Held-frame :
    (rs : List Reset) (t t' : Trace)
    → All (λ p. driven p t' ≡ driven p t) (pins rs)
    → All (Held t) rs
    → All (Held t') rs
Held-frame [] t t' same h = tt
Held-frame (r ∷ rs) t t' same h = (rw same.0 h.0, Held-frame rs t t' same.1 h.1)

pub All-map {ℓ κ μ} :
    {A : Type ℓ} (P : A → Type κ) (Q : A → Type μ) (xs : List A)
    → ((x : A) → P x → Q x)
    → All P xs
    → All Q xs
All-map P Q [] f a = tt
All-map P Q (x ∷ xs) f a = (f x a.0, All-map P Q xs f a.1)

pub All_of {ℓ κ} : {A : Type ℓ} (P : A → Type κ) (xs : List A) → ((x : A) → P x) → All P xs
All_of P [] f = tt
All_of P (x ∷ xs) f = (f x, All_of P xs f)

Absent-column :
    (q : ℕ) (qs ps : List ℕ)
    → All (λ p. Absent p (q ∷ qs)) ps
    → Absent q ps × All (λ p. Absent p qs) ps
Absent-column q qs [] a = (tt, tt)
Absent-column q qs (p ∷ ps) a =
    let (here, rest) = Absent-column q qs ps a.1 in ((λ e. a.0.0 (sym e), here), (a.0.1, rest))

-- Two sets of pins that have none in common, read from the other set.
pub Absent-swap : (qs ps : List ℕ) → All (λ p. Absent p qs) ps → All (λ q. Absent q ps) qs
Absent-swap [] ps a = tt
Absent-swap (q ∷ qs) ps a =
    let (here, rest) = Absent-column q qs ps a in (here, Absent-swap qs ps rest)
