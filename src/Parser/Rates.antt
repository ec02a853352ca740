-- ===== src/Parser/Rates.antt =====
-- driver/parser/rate.go: the shapes of traffic and their check. A float32 is a value of a type `F`
-- with the comparisons of the language, which say `false` of a value that is not a number.
use norma.Base.{
  ℕ, ◌+◌, ◌≡◌, ◌↔◌, refl, Bool, false, ◌||◌, Option, none, some, List, [], ◌∷◌, ◌++◌, if◌then◌else◌,
  ◌==◌, nat_comparable, arith,
}

pub record Floats (F : Type 0) : Type 0 where
  pub zero : F
  pub one : F
  pub less : F → F → Bool
  pub at_most : F → F → Bool

pub record Slope (F : Type 0) : Type 0 where
  pub start : F
  pub increment : F

pub record Wave (F : Type 0) : Type 0 where
  pub min : Option F
  pub max : F
  pub period : F

pub record Auto (F : Type 0) : Type 0 where
  pub increase : Option F
  pub decrease : Option F

pub record Rate (F : Type 0) : Type 0 where
  pub constant : Option F
  pub slope : Option (Slope F)
  pub wave : Option (Wave F)
  pub auto : Option (Auto F)

pub data RateError : Type 0 where
  shapes_given : ℕ → RateError
  constant_negative start_negative min_negative max_negative min_above_max : RateError
  period_not_positive increase_not_positive decrease_out_of_range : RateError

-- An error to report where a test holds, as an entry of `errs`.
abbrev pub report {ℓ} : {E : Type ℓ} → Bool → E → List E
report b e = if b then e ∷ [] else []

abbrev pub given {ℓ} : {A : Type ℓ} → Option A → ℕ
given none = 0
given (some a) = 1

module _ {F : Type 0} (f : Floats F) where
  open f use {zero, one, less, at_most}

  abbrev pub check_slope : Slope F → List RateError
  check_slope s = report (less s.start zero) start_negative

  abbrev pub min_or_zero : Wave F → F
  min_or_zero w = elim w.min [ none ↦ zero | some m ↦ m ]

  abbrev pub check_wave : Wave F → List RateError
  check_wave w =
      report (less (min_or_zero w) zero) min_negative
      ++ (report (less w.max zero) max_negative
          ++ (report (less w.max (min_or_zero w)) min_above_max
              ++ report (at_most w.period zero) period_not_positive))

  abbrev check_increase : Option F → List RateError
  check_increase none = []
  check_increase (some x) = report (at_most x zero) increase_not_positive

  abbrev check_decrease : Option F → List RateError
  check_decrease none = []
  check_decrease (some x) = report (less x zero || less one x) decrease_out_of_range

  abbrev pub check_auto : Auto F → List RateError
  check_auto a = check_increase a.increase ++ check_decrease a.decrease

  abbrev shapes : Rate F → ℕ
  shapes r = given r.constant + (given r.slope + (given r.wave + given r.auto))

  -- The check of the shapes that follow the constant one.
  abbrev check_shape : Option (Slope F) → Option (Wave F) → Option (Auto F) → List RateError
  check_shape (some s) w a = check_slope s
  check_shape none (some w) a = check_wave w
  check_shape none none (some a) = check_auto a
  check_shape none none none = []

  abbrev check_constant : Option F → Bool
  check_constant none = false
  check_constant (some c) = less c zero

  -- Rate.Check
  unfoldable pub check_rate : Rate F → List RateError
  check_rate r =
      let others = check_shape r.slope r.wave r.auto in
      if shapes r == 1
      then (if check_constant r.constant then constant_negative ∷ [] else others)
      else shapes_given (shapes r) ∷ []

  -- The rates that a scenario may ask for: one shape, with its parameters in range.
  pub data IsRate : Rate F → Type 0 where
    a_constant :
        {c : F}
        → less c zero ≡ false
        → IsRate (record { constant = some c; slope = none; wave = none; auto = none })
    a_slope :
        {s : Slope F}
        → less s.start zero ≡ false
        → IsRate (record { constant = none; slope = some s; wave = none; auto = none })
    a_wave :
        {w : Wave F}
        → less (min_or_zero w) zero ≡ false
        → less w.max zero ≡ false
        → less w.max (min_or_zero w) ≡ false
        → at_most w.period zero ≡ false
        → IsRate (record { constant = none; slope = none; wave = some w; auto = none })
    an_auto :
        {a : Auto F}
        → ((x : F) → a.increase ≡ some x → at_most x zero ≡ false)
        → ((x : F) → a.decrease ≡ some x → (less x zero ≡ false) × (less one x ≡ false))
        → IsRate (record { constant = none; slope = none; wave = none; auto = some a })

  fields-IsRate :
      (c : Option F) (s : Option (Slope F)) (w : Option (Wave F)) (a : Option (Auto F))
      → let r : Rate F = record { constant = c; slope = s; wave = w; auto = a } in
        check_rate r ≡ [] → IsRate r
  unfolding check_rate
  fields-IsRate (some c) none none none h = a_constant (ground (arith, h))
  fields-IsRate none (some s) none none h = a_slope (ground (arith, h))
  fields-IsRate none none (some w) none h =
      a_wave (ground (arith, h)) (ground (arith, h)) (ground (arith, h)) (ground (arith, h))
  fields-IsRate none none none (some a) h =
      an_auto (λ x e. ground (arith, h, e)) (λ x e. ground (arith, h, e))
  fields-IsRate none none none none h = absurd (ground (arith, h))
  fields-IsRate (some c) (some s) w a h = absurd (ground (arith, h))
  fields-IsRate (some c) none (some w) a h = absurd (ground (arith, h))
  fields-IsRate (some c) none none (some a) h = absurd (ground (arith, h))
  fields-IsRate none (some s) (some w) a h = absurd (ground (arith, h))
  fields-IsRate none (some s) none (some a) h = absurd (ground (arith, h))
  fields-IsRate none none (some w) (some a) h = absurd (ground (arith, h))

  increase-accepted :
      (i : Option F) → ((x : F) → i ≡ some x → at_most x zero ≡ false) → check_increase i ≡ []
  increase-accepted none up = refl
  increase-accepted (some x) up = ground (arith, up x refl)

  decrease-accepted :
      (d : Option F)
      → ((x : F) → d ≡ some x → (less x zero ≡ false) × (less one x ≡ false))
      → check_decrease d ≡ []
  decrease-accepted none down = refl
  decrease-accepted (some x) down = ground (arith, down x refl)

  IsRate-accepted : (r : Rate F) → IsRate r → check_rate r ≡ []
  unfolding check_rate
  IsRate-accepted r (a_constant h) = ground (arith, h)
  IsRate-accepted r (a_slope h) = ground (arith, h)
  IsRate-accepted r (a_wave least most order lasts) = ground (arith, least, most, order, lasts)
  IsRate-accepted r (an_auto {a = a} up down) =
      rw (increase-accepted a.increase up, decrease-accepted a.decrease down) refl

  -- A rate passes the check exactly when it has one shape and no comparison finds one of its parameters
  -- out of range.
  pub check_rate_iff : (r : Rate F) → (check_rate r ≡ []) ↔ IsRate r
  check_rate_iff r = (fields-IsRate r.constant r.slope r.wave r.auto, IsRate-accepted r)
