-- ===== src/Executor/Names.antt =====
-- The names of the instances of a node in driver/executor/run.go: `fmt.Sprintf("%s-%d")`, and the test
-- by `strconv.Atoi` of execStopNode.
use Prim.Native.String.{◌++◌ as str_append, len}
use text.Mathlib.Text.{starts_with}
use norma.Base.{
  ℕ, zero, suc, ◌+◌, ◌*◌, ◌-◌, ◌/◌, ◌%◌, ◌^◌, Bool, false, ◌&&◌, ◌||◌, List, [], ◌∷◌, String, leb,
  ltb, if◌then◌else◌, ◌==◌, string_comparable, nat_comparable, all, drop,
}
use norma.Parser.Names.{codes}

abbrev digit : ℕ → String
digit zero = "0"
digit (suc zero) = "1"
digit (suc (suc zero)) = "2"
digit (suc (suc (suc zero))) = "3"
digit (suc (suc (suc (suc zero)))) = "4"
digit (suc (suc (suc (suc (suc zero))))) = "5"
digit (suc (suc (suc (suc (suc (suc zero)))))) = "6"
digit (suc (suc (suc (suc (suc (suc (suc zero))))))) = "7"
digit (suc (suc (suc (suc (suc (suc (suc (suc zero)))))))) = "8"
digit (suc (suc (suc (suc (suc (suc (suc (suc (suc n))))))))) = "9"

-- `%d`; each round takes a digit off, so that the number itself is fuel enough.
unfoldable pub decimal_from : ℕ → ℕ → String
decimal_from zero n = digit n
decimal_from (suc fuel) n =
    let rest = decimal_from fuel (n / 10) in
    if ltb n 10 then digit n else str_append rest (digit (n % 10))

abbrev pub decimal : ℕ → String
decimal n = decimal_from n n

-- The name of an instance, of which there are `instances`.
abbrev pub instance_name : String → ℕ → ℕ → String
instance_name name instances i =
    if ltb 1 instances then str_append (str_append name "-") (decimal i) else name

abbrev pub is_digit : ℕ → Bool
is_digit c = leb b'0' c && leb c b'9'

abbrev value_of : ℕ → List ℕ → ℕ
value_of acc [] = acc
value_of acc (c ∷ cs) = value_of (acc * 10 + (c - b'0')) cs

-- The digits of a number up to a bound.
abbrev is_number : ℕ → List ℕ → Bool
is_number bound [] = false
is_number bound (c ∷ cs) = all is_digit (c ∷ cs) && leb (value_of 0 (c ∷ cs)) bound

-- Whether `strconv.Atoi` accepts a text: digits, after at most one sign, of a signed 64-bit number.
unfoldable pub is_int : List ℕ → Bool
is_int [] = false
is_int (c ∷ cs) =
    if c == b'-'
    then is_number (2 ^ 63) cs
    else if c == b'+'
    then is_number (2 ^ 63 - 1) cs
    else is_number (2 ^ 63 - 1) (c ∷ cs)

-- Whether execStopNode stops a node of this name: the base, or an instance with a numeric suffix.
unfoldable pub is_target : String → String → Bool
is_target base name =
    let prefix = str_append base "-" in
    name == base || (starts_with name prefix && is_int (drop (len prefix) (codes name)))
