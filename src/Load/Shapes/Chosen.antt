-- ===== src/Load/Shapes/Chosen.antt =====
-- The shape of a rate that passed the check of its scenario.
use norma.Base.{◌≡◌, refl, false, Option, none, some, []}
use norma.Base.Results.{ok}
use norma.Parser.Rates.{
  Floats, Rate, IsRate, a_constant, a_slope, a_wave, an_auto, min_or_zero, check_rate,
  check_rate_iff,
}
use norma.Load.Shapes.{
  Shaper, constant_shaper, slope_shaper, auto_shaper, wave_shaper, AutoDefaults, given_or,
  parse_rate,
}

module _ {F : Type 0} (f : Floats F) (defaults : AutoDefaults F) where
  open f use {zero, one, less, at_most}

  -- The parameters with which a shape asks for no less than nothing.
  pub data IsInRange : Shaper F → Type 0 where
    constant_in_range : {c : F} → less c zero ≡ false → IsInRange (constant_shaper c)
    slope_in_range : {s i : F} → less s zero ≡ false → IsInRange (slope_shaper s i)
    auto_in_range :
        {i d : F}
        → at_most i zero ≡ false
        → less d zero ≡ false
        → less one d ≡ false
        → IsInRange (auto_shaper i d)
    wave_in_range :
        {m n p : F}
        → less m zero ≡ false
        → less n m ≡ false
        → at_most p zero ≡ false
        → IsInRange (wave_shaper m n p)

  module _ (increases : at_most defaults.increase zero ≡ false)
      (decreases : less defaults.decrease zero ≡ false)
      (at_most_all : less one defaults.decrease ≡ false) where
    increase-given :
        (o : Option F)
        → ((x : F) → o ≡ some x → at_most x zero ≡ false)
        → at_most (given_or f defaults defaults.increase o) zero ≡ false
    increase-given none h = increases
    increase-given (some x) h = h x refl

    decrease-given :
        (o : Option F)
        → ((x : F) → o ≡ some x → (less x zero ≡ false) × (less one x ≡ false))
        → (less (given_or f defaults defaults.decrease o) zero ≡ false)
          × (less one (given_or f defaults defaults.decrease o) ≡ false)
    decrease-given none h = (decreases, at_most_all)
    decrease-given (some x) h = h x refl

    rate-IsInRange :
        (r : Rate F)
        → IsRate f r
        → (s : Shaper F) × (parse_rate f defaults (some r) ≡ ok s) × IsInRange s
    unfolding parse_rate
    rate-IsInRange r (a_constant {c} h) = (constant_shaper c, refl, constant_in_range h)
    rate-IsInRange r (a_slope {s} h) = (slope_shaper s.start s.increment, refl, slope_in_range h)
    rate-IsInRange r (a_wave {w} h1 h2 h3 h4) =
        (wave_shaper (min_or_zero f w) w.max w.period, refl, wave_in_range h1 h3 h4)
    rate-IsInRange r (an_auto {a} up down) =
        let (lo, hi) = decrease-given a.decrease down in
        (
          auto_shaper (given_or f defaults defaults.increase a.increase)
              (given_or f defaults defaults.decrease a.decrease),
          refl,
          auto_in_range (increase-given a.increase up) lo hi,
        )

    -- Where the defaults of the automatic shape are in range: ParseRate gives a shape for every rate that
    -- passes the check of its scenario, and the parameters of that shape are in range. So no such rate is
    -- cut by more than all of it, and no frequency starts below 0.
    pub checked_rate-IsInRange :
        (r : Rate F)
        → check_rate f r ≡ []
        → (s : Shaper F) × (parse_rate f defaults (some r) ≡ ok s) × IsInRange s
    checked_rate-IsInRange r h = rate-IsInRange r ((check_rate_iff f r).0 h)
