-- ===== src/Access/Link/Replay.antt =====
-- The calls tell the link state.
use common_embedded_platform.Prelude.{
  ℕ, ◌≡◌, refl, sym, ap, ◌∙◌, Bool, true, false, not, ◌&&◌, Option, none, some, List, [], ◌∷◌, ◌++◌,
  if◌then◌else◌, if-either, arith,
}
use common_embedded_platform.Access.Link.{
  Link, LinkEvent, link_state_changed, on_link_up, on_link_down, PhyRegisters, link_up, speed_of,
  poll_phys, poll_all,
}

-- The state and the speed as the calls tell them; `none` if a link that is up comes up, or one that is
-- down goes down.
abbrev pub told : Bool → ℕ → List LinkEvent → Option (Bool × ℕ)
told up speed [] = some (up, speed)
told up speed (link_state_changed v ∷ es) = told up v es
told up speed (on_link_up ∷ es) = if up then none else told true speed es
told up speed (on_link_down ∷ es) = if up then told false speed es else none

abbrev then_told : Option (Bool × ℕ) → List LinkEvent → Option (Bool × ℕ)
then_told none es = none
then_told (some (up, speed)) es = told up speed es

told-append :
    (up : Bool) (speed : ℕ) (es fs : List LinkEvent)
    → told up speed (es ++ fs) ≡ then_told (told up speed es) fs
told-append up speed [] fs = refl
told-append up speed (link_state_changed v ∷ es) fs = told-append up v es fs
told-append true speed (on_link_up ∷ es) fs = refl
told-append false speed (on_link_up ∷ es) fs = told-append true speed es fs
told-append true speed (on_link_down ∷ es) fs = told-append false speed es fs
told-append false speed (on_link_down ∷ es) fs = refl

told-poll_phys :
    (r : PhyRegisters) (s : Link)
    → told s.up s.speed (poll_phys r s).0 ≡ some ((poll_phys r s).1.up, (poll_phys r s).1.speed)
unfolding poll_phys
told-poll_phys r s =
    let now = link_up r in
    let P : List LinkEvent × Link → Type 0 =
      λ x. told s.up s.speed x.0 ≡ some (x.1.up, x.1.speed) in
    let up : List LinkEvent × Link = (
      link_state_changed (speed_of r) ∷ on_link_up ∷ [],
      record { up = now; speed = speed_of r },
    ) in
    let down : List LinkEvent × Link =
      (link_state_changed 0 ∷ on_link_down ∷ [], record { up = now; speed = 0 }) in
    let same : List LinkEvent × Link = ([], record s { up = now }) in
    if-either P (now && not s.up) up (if not now && s.up then down else same)
      (λ x.
        let is_up : now ≡ true = ground arith in
        let was : s.up ≡ false = ground arith in
        ap (λ b. told b s.speed up.0) was ∙ ap (λ b. some (b, speed_of r)) (sym is_up))
      (λ x.
        if-either P (not now && s.up) down same
          (λ y.
            let is_down : now ≡ false = ground arith in
            let was : s.up ≡ true = ground arith in
            ap (λ b. told b s.speed down.0) was ∙ ap (λ b. some (b, 0)) (sym is_down))
          (λ y.
            let unchanged : s.up ≡ now = equal now s.up x y in
            ap (λ b. some (b, s.speed)) unchanged))
  where
    equal : (a b : Bool) → (a && not b) ≡ false → (not a && b) ≡ false → b ≡ a
    equal true true x y = refl
    equal false false x y = refl
    equal true false x y = absurd (ground arith)
    equal false true x y = absurd (ground arith)

-- Whatever the PHY reports in a series of polls: the calls alternate between link up and link down,
-- and they tell the state and the speed that the variables hold at the end, from those at the start.
pub told-poll_all :
    (rs : List PhyRegisters) (s : Link)
    → told s.up s.speed (poll_all rs s).0 ≡ some ((poll_all rs s).1.up, (poll_all rs s).1.speed)
unfolding poll_all
told-poll_all [] s = refl
told-poll_all (r ∷ rs) s =
    let first = poll_phys r s in
    told-append s.up s.speed first.0 (poll_all rs first.1).0
    ∙ ap (λ o. then_told o (poll_all rs first.1).0) (told-poll_phys r s)
    ∙ told-poll_all rs first.1

-- After a poll the link is up if and only if the PHY said so, whatever came before.
pub poll_phys-up : (r : PhyRegisters) (s : Link) → (poll_phys r s).1.up ≡ link_up r
unfolding poll_phys
poll_phys-up r s = ground arith
