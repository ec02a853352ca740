-- ===== src/Checking/Heights.antt =====
-- driver/checking/block_height.go: all nodes agree on a block height, up to a slack; the nodes that
-- are expected to fail, and only they, fall behind.
pub mod Agreement
use norma.Base.{
  ℕ, Bool, true, false, not, ◌&&◌, Option, none, some, List, [], ◌∷◌, String, string_comparable,
  keep, map, same_set, if◌then◌else◌,
}
use norma.Base.Int.{ℤ, pos, ltb_ℤ, ◌-ℤ◌}
use norma.Base.Results.{Result, ok, err, ◌>>=◌}
use norma.Checking.Failures.{labels_of}
use norma.Checking.Poll.{Rounds, poll}

-- A node as one round of the check finds it; `height` is none where `getBlockHeight` fails.
pub record Sighting : Type 0 where
  pub label : String
  pub expected_failure : Bool
  pub height : Option ℤ

pub data HeightError : Type 0 where
  unreadable : String → HeightError
  invalid_block : String → ℤ → HeightError
  too_old : String → ℤ → ℤ → HeightError
  unexpected_failures : List String → List String → HeightError
  not_settled : HeightError → HeightError
  stopped : HeightError

abbrev pub or_zero : Option ℤ → ℤ
or_zero none = pos 0
or_zero (some h) = h

-- The first loop of `checkOnce`: the highest block, if all heights are readable and valid.
unfoldable pub scan : ℤ → List Sighting → Result HeightError ℤ
scan top [] = ok top
scan top (n ∷ ns) = elim n.height [
  | none ↦ err (unreadable n.label)
  | some h ↦
      let rest = scan (if ltb_ℤ top h then h else top) ns in
      if ltb_ℤ h (pos 1) then err (invalid_block n.label h) else rest
]

-- `heights[i] < maxHeight-int64(c.slack)`
unfoldable pub lags : ℕ → ℤ → Sighting → Bool
lags slack top n = ltb_ℤ (or_zero n.height) (top -ℤ pos slack)

-- The second loop: the labels of the nodes that fail as expected.
unfoldable pub laggards : ℕ → ℤ → List Sighting → Result HeightError (List String)
laggards slack top [] = ok []
laggards slack top (n ∷ ns) =
    let rest = laggards slack top ns in
    if lags slack top n
    then (if n.expected_failure
        then rest >>= (λ labels. ok (n.label ∷ labels))
        else err (too_old n.label (or_zero n.height) top))
    else rest

abbrev pub expected_labels : List Sighting → List String
expected_labels ns = labels_of (λ n. n.label) (λ n. n.expected_failure) ns

abbrev verdict : List String → List String → Result HeightError (Unit {0})
verdict got want = if same_set got want then ok tt else err (unexpected_failures got want)

-- checkOnce
unfoldable pub check_once : ℕ → List Sighting → Result HeightError (Unit {0})
check_once slack nodes = do
  top ← scan (pos 0) nodes
  got ← laggards slack top nodes
  verdict got (expected_labels nodes)

-- Check: one attempt without a timeout, else the rounds of the poll. Round `i` finds the nodes of
-- `seen i`.
unfoldable pub check_heights :
    ℕ
    → ℤ
    → (ℕ → List Sighting)
    → (ℕ → Bool)
    → (ℕ → Bool)
    → ℕ
    → Option (Result HeightError (Unit {0}))
check_heights slack timeout seen expired slept fuel =
    if not (ltb_ℤ (pos 0) timeout)
    then some (check_once slack (seen 0))
    else poll not_settled stopped
        (record { attempt = λ i. check_once slack (seen i); expired = expired; slept = slept }) fuel
