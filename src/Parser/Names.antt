-- ===== src/Parser/Names.antt =====
-- The texts that a scenario may hold: NamePattern and isTypeValid of driver/parser/common.go, and the
-- application types of load/app/factory.go. `strings.ToLower` and `strings.TrimSpace` are arguments.
use Prim.Native.Char.{code}
use norma.Base.{
  ℕ, Bool, ◌&&◌, ◌||◌, not, List, [], ◌∷◌, String, leb, ◌==◌, nat_comparable, string_comparable,
  all, contains,
}

-- The code points of a text.
abbrev pub codes : String → List ℕ
codes String.[] = []
codes (String.◌∷◌ c s) = code c ∷ codes s

abbrev pub is_empty : String → Bool
is_empty s = s == ""

abbrev between : ℕ → ℕ → ℕ → Bool
between low high c = leb low c && leb c high

-- `[A-Za-z0-9-.]`
abbrev pub is_name_code : ℕ → Bool
is_name_code c =
    between b'A' b'Z' c
    || (between b'a' b'z' c || (between b'0' b'9' c || (c == b'-' || c == b'.')))

-- NamePattern, `^[A-Za-z0-9-.]+$`
unfoldable pub is_name : String → Bool
is_name s = not (is_empty s) && all is_name_code (codes s)

-- isTypeValid; `false` is its error.
abbrev pub is_type_valid : String → Bool
is_type_valid t = contains ("validator" ∷ "rpc" ∷ "observer" ∷ []) t

-- The types that getFactory has a factory for.
abbrev pub application_types : List String
application_types =
    "erc20" ∷ "counter" ∷ "" ∷ "store" ∷ "uniswap" ∷ "smartaccount" ∷ "subsidies" ∷ "transient"
    ∷ "selfdestructoldcontract" ∷ "selfdestructnewcontract" ∷ "ecdsa" ∷ "largecontract"
    ∷ "allofbundle" ∷ "oneofbundle" ∷ "subsidizedbundle" ∷ "failingbundle" ∷ "duplicatedbundle"
    ∷ "bundlebundle" ∷ []

-- IsSupportedApplicationType
abbrev pub is_supported_application_type : (String → String) → String → Bool
is_supported_application_type to_lower t = contains application_types (to_lower t)
