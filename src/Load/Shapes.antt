-- ===== src/Load/Shapes.antt =====
-- load/shaper/shaper.go and load/shaper/auto.go: the shape of a parsed rate, and the automatic shape,
-- which raises its rate until the load is no longer processed. A float is a value of a type `F`.
pub mod Chosen
use norma.Base.{ℕ, ◌+◌, ◌-◌, ◌%◌, ◌^◌, Bool, Option, none, some, leb, if◌then◌else◌}
use norma.Base.Results.{Result, ok, err}
use norma.Parser.Rates.{Floats, Rate, Slope, Wave, Auto, min_or_zero}

pub data Shaper (F : Type 0) : Type 0 where
  constant_shaper : F → Shaper F
  slope_shaper : F → F → Shaper F
  auto_shaper : F → F → Shaper F
  wave_shaper : F → F → F → Shaper F

pub data ShapeError : Type 0 where
  unknown_rate : ShapeError

-- The defaults of the automatic shape, 1 and 0.2.
pub record AutoDefaults (F : Type 0) : Type 0 where
  pub increase : F
  pub decrease : F

module _ {F : Type 0} (f : Floats F) (defaults : AutoDefaults F) where
  abbrev pub given_or : F → Option F → F
  given_or x none = x
  given_or x (some y) = y

  abbrev auto_of : Auto F → Shaper F
  auto_of a =
      auto_shaper (given_or defaults.increase a.increase) (given_or defaults.decrease a.decrease)

  abbrev wave_of : Wave F → Shaper F
  wave_of w = wave_shaper (min_or_zero f w) w.max w.period

  -- The shapes that ParseRate asks for after the constant one.
  abbrev other_shape :
      Option (Slope F) → Option (Auto F) → Option (Wave F) → Result ShapeError (Shaper F)
  other_shape (some s) a w = ok (slope_shaper s.start s.increment)
  other_shape none (some a) w = ok (auto_of a)
  other_shape none none (some w) = ok (wave_of w)
  other_shape none none none = err unknown_rate

  -- ParseRate
  unfoldable pub parse_rate : Option (Rate F) → Result ShapeError (Shaper F)
  parse_rate none = ok (constant_shaper f.zero)
  parse_rate (some r) = elim r.constant [
    | some c ↦ ok (constant_shaper c)
    | none ↦ other_shape r.slope r.auto r.wave
  ]

-- float64: `float64(gap) > 2 * rate`, `rate * (1 - decrease)`, `rate + increase`, and the messages of a
-- rate in an interval of nanoseconds.
pub record AutoArithmetic (F : Type 0) : Type 0 where
  pub overloaded : ℕ → F → Bool
  pub cut : F → F → F
  pub raise : F → F → F
  pub in_interval : F → ℕ → F

-- autoShaper, whose lastOverflowCheck is in nanoseconds.
pub record AutoShaper (F : Type 0) : Type 0 where
  pub increase : F
  pub decrease : F
  pub rate : F
  pub last_overflow_check : ℕ

-- What a LoadInfoSource answers, none for an error; the numbers are 64-bit words.
pub record LoadInfo : Type 0 where
  pub sent : Option ℕ
  pub received : Option ℕ

-- getProcessingGap
unfoldable pub get_processing_gap : LoadInfo → ℕ
get_processing_gap info = elim info.sent [
  | none ↦ 0
  | some sent ↦ elim info.received [
    | none ↦ 0
    | some received ↦ (sent + 2 ^ 64 - received) % 2 ^ 64
  ]
]

abbrev pub one_second : ℕ
one_second = 1000000000

module _ {F : Type 0} (arithmetic : AutoArithmetic F) where
  open arithmetic use {overloaded, cut, raise, in_interval}

  unfoldable pub adjusted_rate : LoadInfo → AutoShaper F → F
  adjusted_rate info s =
      if overloaded (get_processing_gap info) s.rate
      then cut s.rate s.decrease
      else raise s.rate s.increase

  unfoldable pub adjust : ℕ → LoadInfo → AutoShaper F → AutoShaper F
  adjust start info s =
      if leb (s.last_overflow_check + one_second) start
      then (record s { rate = adjusted_rate info s; last_overflow_check = start })
      else s

  -- autoShaper.GetNumMessagesInInterval
  abbrev pub get_num_messages_in_interval : ℕ → ℕ → LoadInfo → AutoShaper F → AutoShaper F × F
  get_num_messages_in_interval start duration info s =
      let s' = adjust start info s in (s', in_interval s'.rate duration)
