-- ===== src/Parser/CheckSpecs/Fits.antt =====
-- That reading one parameter keeps a check to the parameters that its function accepts.
use norma.Base.{
  ◌≡◌, ◌⊎◌, inl, inr, refl, subst, true, false, Option, none, some, [], String, if◌then◌else◌, ◌==◌,
  string_comparable, arith, Bool-cases,
}
use norma.Base.Int.{ℤ, pos, ◌≤ℤ◌}
use norma.Base.Results.{Result, ok, err, ◌>>=◌, bind-ok, ok_injective}
use norma.Genesis.RulesPatch.{sets_nothing, is_nil}
use norma.Parser.Functions.{CheckFunction}
use norma.Parser.Scenario.{CheckSpec, check_of}
use norma.Parser.Yaml.{Yaml, ParseError, or_bad, bad_parameter, check_parameter_not_valid}
use norma.Parser.CheckSpecs.{accepts, not_below_zero, parse_check_duration, set_check_parameter}

abbrev pub NotNegative : Option ℤ → Type 0
NotNegative none = Unit
NotNegative (some d) = pos 0 ≤ℤ d

-- Every parameter of a check is one that its function accepts, and its duration is not negative.
abbrev pub Fits : {F : Type 0} → CheckFunction → CheckSpec F → Type 0
Fits f c =
    (c.function ≡ some f)
    × (is_nil c.tolerance ≡ false → accepts f "tolerance" ≡ true)
    × (is_nil c.duration ≡ false → accepts f "duration" ≡ true)
    × (is_nil c.ceiling ≡ false → accepts f "ceiling" ≡ true)
    × (c.failing ≡ true → accepts f "failing" ≡ true)
    × (sets_nothing c.rules ≡ false → accepts f "rules" ≡ true)
    × ((c.throttled_nodes ≡ []) ⊎ (accepts f "throttledNodes" ≡ true))
    × NotNegative c.duration

-- What a successful read of one value made of the check.
set-ok :
    {A C : Type 0} (m : Result ParseError A) (set : A → C) (c' : C)
    → m >>= (λ a. ok (set a)) ≡ ok c'
    → (a : A) × (m ≡ ok a) × (set a ≡ c')
set-ok m set c' h =
    let (a, read, done) = bind-ok m (λ a. ok (set a)) c' h in
    (a, read, ok_injective (set a) c' done)

pub check_of-Fits : (F : Type 0) (f : CheckFunction) → Fits f (check_of {F = F} f)
check_of-Fits F f = (
  refl,
  λ h. absurd cc,
  λ h. absurd cc,
  λ h. absurd cc,
  λ h. absurd cc,
  λ h. absurd cc,
  inl refl,
  tt,
)

accepts_same :
    (f : CheckFunction) (key known : String)
    → (key == known) ≡ true
    → accepts f key ≡ true
    → accepts f known ≡ true
accepts_same f key known same a =
    subst (λ x. accepts f x ≡ true) ((string_comparable.same_iff key known).0 same) a

module _ {N F : Type 0} (yaml : Yaml N F) (f : CheckFunction) where
  open yaml use {
    value, line, as_string, as_int, as_bool, as_float, as_strings, as_rules, parse_duration,
  }

  duration_read : (v : N) (d : ℤ) → parse_check_duration yaml v ≡ ok d → pos 0 ≤ℤ d
  duration_read v d h =
      let (s, read, h') =
        bind-ok (or_bad (bad_parameter "duration") (as_string v))
          (λ s. or_bad (bad_parameter "duration") (parse_duration s) >>= not_below_zero) d h in
      let (d', parsed, h'') =
        bind-ok (or_bad (bad_parameter "duration") (parse_duration s)) not_below_zero d h' in
      ground (arith, h'')

  -- The parameters of the second half of the switch.
  other-Fits :
      (key : String) (v : N) (c c' : CheckSpec F)
      → accepts f key ≡ true
      → (if key == "failing"
          then or_bad (bad_parameter key) (as_bool v) >>= (λ b. ok (record c { failing = b }))
          else if key == "rules"
          then or_bad (bad_parameter key) (as_rules v) >>= (λ r. ok (record c { rules = r }))
          else if key == "throttledNodes"
          then or_bad (bad_parameter key) (as_strings v)
            >>= (λ l. ok (record c { throttled_nodes = l }))
          else err (check_parameter_not_valid key f))
        ≡ ok c'
      → Fits f c
      → Fits f c'
  other-Fits key v c c' a h (fn, tol, dur, ceil, fail, rul, thr, neg) =
      elim (Bool-cases (key == "failing")) [
        | inl is ↦
            let (b, read, set) = set-ok _ (λ b. record c { failing = b }) c' (rw is at h) in
            let known = accepts_same f key "failing" is a in
            subst (Fits f) set (fn, tol, dur, ceil, λ _. known, rul, thr, neg)
        | inr no0 ↦ elim (Bool-cases (key == "rules")) [
          | inl is ↦
              let (r, read, set) = set-ok _ (λ r. record c { rules = r }) c' (rw (no0, is) at h) in
              let known = accepts_same f key "rules" is a in
              subst (Fits f) set (fn, tol, dur, ceil, fail, λ _. known, thr, neg)
          | inr no1 ↦ elim (Bool-cases (key == "throttledNodes")) [
            | inl is ↦
                let (l, read, set) =
                  set-ok _ (λ l. record c { throttled_nodes = l }) c' (rw (no0, no1, is) at h) in
                let known = accepts_same f key "throttledNodes" is a in
                subst (Fits f) set (fn, tol, dur, ceil, fail, rul, inr known, neg)
            | inr no2 ↦
                let never : err (check_parameter_not_valid key f) ≡ ok c' =
                  rw (no0, no1, no2) at h in
                absurd (ground (arith, never))
          ]
        ]
      ]

  -- Each parameter in turn: where the key is another, the later ones are left.
  pub set-Fits :
      (key : String) (v : N) (c c' : CheckSpec F)
      → accepts f key ≡ true
      → set_check_parameter yaml f key v c ≡ ok c'
      → Fits f c
      → Fits f c'
  unfolding set_check_parameter
  set-Fits key v c c' a h (fn, tol, dur, ceil, fail, rul, thr, neg) =
      elim (Bool-cases (key == "tolerance")) [
        | inl is ↦
            let (t, read, set) = set-ok _ (λ t. record c { tolerance = some t }) c' (rw is at h) in
            let known = accepts_same f key "tolerance" is a in
            subst (Fits f) set (fn, λ _. known, dur, ceil, fail, rul, thr, neg)
        | inr no0 ↦ elim (Bool-cases (key == "duration")) [
          | inl is ↦
              let (d, read, set) =
                set-ok _ (λ d. record c { duration = some d }) c' (rw (no0, is) at h) in
              let known = accepts_same f key "duration" is a in
              let least = duration_read v d read in
              subst (Fits f) set (fn, tol, λ _. known, ceil, fail, rul, thr, least)
          | inr no1 ↦ elim (Bool-cases (key == "ceiling")) [
            | inl is ↦
                let (x, read, set) =
                  set-ok _ (λ x. record c { ceiling = some x }) c' (rw (no0, no1, is) at h) in
                let known = accepts_same f key "ceiling" is a in
                subst (Fits f) set (fn, tol, dur, λ _. known, fail, rul, thr, neg)
            | inr no2 ↦
                other-Fits key v c c' a (rw (no0, no1, no2) at h)
                  (fn, tol, dur, ceil, fail, rul, thr, neg)
          ]
        ]
      ]
