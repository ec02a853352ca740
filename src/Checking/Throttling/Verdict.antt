-- ===== src/Checking/Throttling/Verdict.antt =====
-- When verifyThrottled is content with the rates.
use norma.Base.{
  ℕ, ◌≡◌, ◌⊎◌, ◌↔◌, inl, inr, refl, sym, ap, ◌∙◌, true, false, not, Option, none, some, List, [],
  ◌∷◌, contains, nat_comparable, Bool-cases, arith,
}
use norma.Base.Map.{Map}
use norma.Base.Results.{ok}
use norma.Checking.Throttling.{RateArithmetic, better, extremes, judge_extremes, verify_throttled}
use norma.Checking.Throttling.Best.{best, IsOneOf, IsUnbeaten, best_unique, best_found}

module _ {F : Type 0} (arithmetic : RateArithmetic F) where
  open arithmetic use {less, is_zero, ratio_reached}

  -- The order of rates that are not NaN, and of which zero is one.
  pub record IsLinear : Type 0 where
    pub asym : (a b : F) → less a b ≡ true → less b a ≡ false
    pub trans : (a b c : F) → less a b ≡ false → less b c ≡ false → less a c ≡ false
    pub antisym : (a b : F) → less a b ≡ false → less b a ≡ false → a ≡ b

  -- `m` is the rate of a listed validator, and none of these is faster.
  abbrev pub IsFastest : List ℕ → Map ℕ F → F → Type 0
  IsFastest expected rates m =
      IsOneOf arithmetic less (contains expected) m rates
      × IsUnbeaten arithmetic less (contains expected) m rates

  -- `u` is the rate of another validator, and none of these is slower.
  abbrev pub IsSlowest : List ℕ → Map ℕ F → F → Type 0
  IsSlowest expected rates u =
      IsOneOf arithmetic (λ a b. less b a) (λ id. not (contains expected id)) u rates
      × IsUnbeaten arithmetic (λ a b. less b a) (λ id. not (contains expected id)) u rates

  -- The gap between the two: a ratio, or anything above zero.
  abbrev pub IsGap : F → F → Type 0
  IsGap m u =
      ((is_zero m ≡ true) × (is_zero u ≡ false))
      ⊎ ((is_zero m ≡ false) × (ratio_reached u m ≡ true))

  extremes-best :
      (expected : List ℕ) (rates : Map ℕ F) (l u : Option F)
      → extremes arithmetic expected rates (l, u) ≡ (
        best arithmetic less (contains expected) l rates,
        best arithmetic (λ a b. less b a) (λ id. not (contains expected id)) u rates,
      )
  unfolding extremes best
  extremes-best expected [] l u = refl
  extremes-best expected ((id, r) ∷ rates) l u = elim (Bool-cases (contains expected id)) [
    | inl listed ↦ rw listed (extremes-best expected rates (better arithmetic less l r) u)
    | inr other ↦
        rw other (extremes-best expected rates l (better arithmetic (λ a b. less b a) u r))
  ]

  judged :
      (l u : Option F)
      → judge_extremes arithmetic (l, u) ≡ ok tt
      → (m k : F) × (l ≡ some m) × (u ≡ some k) × IsGap m k
  unfolding judge_extremes
  judged none u h = absurd cc
  judged (some m) none h = absurd cc
  judged (some m) (some k) h = (m, k, refl, refl, ground (arith, h))

  judges : (m k : F) → IsGap m k → judge_extremes arithmetic (some m, some k) ≡ ok tt
  unfolding judge_extremes
  judges m k gap = ground (arith, gap)

  -- The rates pass exactly where listed and other validators were both observed, and the slowest of
  -- the others keeps the gap to the fastest of the listed ones: the required ratio, or any rate above
  -- zero where the listed ones emit nothing. Rates are linearly ordered.
  pub verify_throttled-IsGap :
      (expected : List ℕ) (rates : Map ℕ F)
      → IsLinear
      → (verify_throttled arithmetic expected rates ≡ ok tt)
        ↔ ((m u : F) × IsFastest expected rates m × IsSlowest expected rates u × IsGap m u)
  verify_throttled-IsGap expected rates linear = (
    λ h.
        let (m, u, e, f, gap) =
          judged _ _
            (ap (judge_extremes arithmetic) (sym (extremes-best expected rates none none)) ∙ h) in
        (
          m,
          u,
          best_found arithmetic less (contains expected) linear.asym linear.trans rates m e,
          best_found arithmetic (λ a b. less b a) (λ id. not (contains expected id))
              (λ a b. linear.asym b a) (λ a b c x y. linear.trans c b a y x) rates u f,
          gap,
        ),
    λ (m, u, fastest, slowest, gap).
        let e =
          best_unique arithmetic less (contains expected) linear.asym linear.trans linear.antisym
            rates m fastest.0 fastest.1 in
        let f =
          best_unique arithmetic (λ a b. less b a) (λ id. not (contains expected id))
            (λ a b. linear.asym b a) (λ a b c x y. linear.trans c b a y x)
            (λ a b x y. linear.antisym a b y x) rates u slowest.0 slowest.1 in
        rw (extremes-best expected rates none none, e, f) (judges m u gap),
  )
