-- ===== src/Tests/HeightsTests.antt =====
-- The block height check at concrete nodes.
use norma.Base.{
  ℕ, ◌≡◌, ◌≤◌, ◌↔◌, refl, Bool, true, false, some, List, [], ◌∷◌, String, ltb, leb, if◌then◌else◌,
  arith,
}
use norma.Base.Int.{pos, ◌-ℤ◌}
use norma.Base.Results.{Result, ok, err}
use norma.Checking.Heights.{
  Sighting, HeightError, scan, lags, laggards, check_once, check_heights, too_old,
}
use norma.Checking.Heights.Agreement.{IsAgreed, check_once-IsAgreed, check_heights_settles}

abbrev node : String → Bool → ℕ → Sighting
node label failing height = record {
  label = label;
  expected_failure = failing;
  height = some (pos height);
}

abbrev network : List Sighting
network = node "A" false 100 ∷ node "B" false 96 ∷ node "C" true 20 ∷ []

abbrev stale : List Sighting
stale = node "A" false 100 ∷ node "B" false 94 ∷ []

network_passes : check_once 5 network ≡ ok tt
unfolding check_once scan laggards lags ◌-ℤ◌
network_passes = refl

stale_fails : check_once 5 stale ≡ err (too_old "B" (pos 94) (pos 100))
unfolding check_once scan laggards lags ◌-ℤ◌
stale_fails = refl

check_once-IsAgreed_example : (check_once 5 network ≡ ok tt) ↔ IsAgreed 5 network
check_once-IsAgreed_example = check_once-IsAgreed 5 network

-- The nodes agree from the third round on; the deadline passes in the sixth.
abbrev seen : ℕ → List Sighting
seen i = if ltb i 2 then stale else network

check_heights_settles_example :
    (res : Result HeightError (Unit {0})) × (check_heights 5 (pos 1000) seen (leb 5) (λ i. true) 6
      ≡ some res)
    × (res ≡ ok tt → (n : ℕ) × (n ≤ 5) × IsAgreed 5 (seen n))
check_heights_settles_example =
    check_heights_settles 5 (pos 1000) seen (leb 5) (λ i. true) 5 (omega arith) refl
