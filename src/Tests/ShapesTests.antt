-- ===== src/Tests/ShapesTests.antt =====
-- The shapes of load at concrete rates.
use norma.Base.{ℕ, ◌≡◌, refl, none, some, [], ltb, leb, ◌+◌, ◌-◌, ◌*◌}
use norma.Base.Results.{ok}
use norma.Parser.Rates.{Floats, Rate, check_rate}
use norma.Load.Shapes.{
  Shaper, AutoDefaults, parse_rate, AutoArithmetic, AutoShaper, LoadInfo, get_processing_gap,
  adjusted_rate, adjust, get_num_messages_in_interval,
}
use norma.Load.Shapes.Chosen.{IsInRange, checked_rate-IsInRange}

abbrev whole : Floats ℕ
whole = record { zero = 0; one = 1; less = ltb; at_most = leb }

abbrev defaults : AutoDefaults ℕ
defaults = record { increase = 1; decrease = 0 }

abbrev automatic : Rate ℕ
automatic = record {
  constant = none;
  slope = none;
  wave = none;
  auto = some (record { increase = some 4; decrease = none });
}

automatic_passes : check_rate whole automatic ≡ []
unfolding check_rate
automatic_passes = refl

checked_rate-IsInRange_example :
    (s : Shaper ℕ) × (parse_rate whole defaults (some automatic) ≡ ok s)
    × IsInRange whole defaults s
checked_rate-IsInRange_example =
    checked_rate-IsInRange whole defaults refl refl refl automatic automatic_passes

abbrev halving : AutoArithmetic ℕ
halving = record {
  overloaded = λ gap rate. ltb (2 * rate) gap;
  cut = λ rate decrease. rate - decrease;
  raise = λ rate increase. rate + increase;
  in_interval = λ rate duration. rate * duration;
}

abbrev shaper : AutoShaper ℕ
shaper = record { increase = 4; decrease = 2; rate = 10; last_overflow_check = 5 }

rate_raised :
    (get_num_messages_in_interval halving 1000000005 3
      (record { sent = some 30; received = some 20 })
      shaper).1
    ≡ 42
unfolding adjust adjusted_rate get_processing_gap
rate_raised = refl

rate_kept :
    adjust halving 1000000004 (record { sent = some 90; received = some 20 }) shaper ≡ shaper
unfolding adjust adjusted_rate get_processing_gap
rate_kept = refl

-- All that was sent before has been received, and more that was sent since.
abbrev overtaken : LoadInfo
overtaken = record { sent = some 30; received = some 31 }

overtaken_gap : get_processing_gap overtaken ≡ 18446744073709551615
unfolding get_processing_gap
overtaken_gap = refl

overtaken_cut : (adjust halving 1000000005 overtaken shaper).rate ≡ 8
unfolding adjust adjusted_rate get_processing_gap
overtaken_cut = refl
