-- ===== src/Checking/Heights/Agreement.antt =====
-- What a passing block height check says of the nodes.
use norma.Base.{
  ℕ, ◌≡◌, ◌≤◌, ◌↔◌, ◌⊎◌, refl, ap, suc, ◌∙◌, inl, inr, Bool, true, some, List, [], ◌∷◌, String,
  string_comparable, arith, All, Some, Bool-cases, Option-cases, same_set, All-imp, Some-imp,
}
use norma.Base.Int.{ℤ, pos, ltb_ℤ, ◌≤ℤ◌, ◌<ℤ◌, ◌+ℤ◌, ◌-ℤ◌}
use norma.Base.Results.{Result, ok, Result-cases}
use norma.Checking.Failures.{labels_of, same_labels}
use norma.Checking.Poll.{Rounds, poll_ends, poll-IsReached}
use norma.Checking.Heights.{
  Sighting, HeightError, check_heights, not_settled, stopped, or_zero, scan, lags, laggards,
  expected_labels, check_once,
}

-- A node whose height was read, and is a block from 1 up to `top`.
abbrev IsValid : ℤ → Sighting → Type 0
IsValid top n = (h : ℤ) × (n.height ≡ some h) × (pos 1 ≤ℤ h) × (h ≤ℤ top)

abbrev height_of : Sighting → ℤ
height_of n = or_zero n.height

-- The first loop returns the greatest height, where it passes.
scan-Top :
    (top out : ℤ) (ns : List Sighting)
    → scan top ns ≡ ok out
    → (top ≤ℤ out) × All (IsValid out) ns × ((out ≡ top) ⊎ Some (λ n. height_of n ≡ out) ns)
unfolding scan
scan-Top top out [] h = (ground arith, tt, inl (ground arith))
scan-Top top out (n ∷ ns) e = elim (Option-cases n.height) [
  | inl f ↦ absurd (ground arith)
  | inr (h, f) ↦
      let valid : pos 1 ≤ℤ h = ground arith in
      elim (Bool-cases (ltb_ℤ top h)) [
        | inl above ↦
            let (le, vs, found) = scan-Top h out ns (ground arith) in
            (ground arith, ((h, f, valid, le), vs), ground arith)
        | inr below ↦
            let (le, vs, found) = scan-Top top out ns (ground arith) in
            (le, ((h, f, valid, ground arith), vs), ground arith)
      ]
]

scan_top :
    (top out : ℤ) (ns : List Sighting)
    → top ≤ℤ out
    → All (IsValid out) ns
    → (out ≡ top) ⊎ Some (λ n. height_of n ≡ out) ns
    → scan top ns ≡ ok out
unfolding scan
scan_top top out [] le vs found = ground arith
scan_top top out (n ∷ ns) le ((h, f, lo, hi), vs) found = elim (Bool-cases (ltb_ℤ top h)) [
  | inl above ↦ let ih = scan_top h out ns hi vs in ground arith
  | inr below ↦ let ih = scan_top top out ns le vs in ground arith
]

-- Behind the greatest height by more than the slack.
abbrev pub IsLagging : ℕ → ℤ → Sighting → Type 0
IsLagging slack top n = height_of n +ℤ pos slack <ℤ top

lags_iff : (slack : ℕ) (top : ℤ) (n : Sighting) → (lags slack top n ≡ true) ↔ IsLagging slack top n
unfolding lags ◌+ℤ◌ ◌-ℤ◌
lags_iff slack top n = ground arith

abbrev lagging_labels : ℕ → ℤ → List Sighting → List String
lagging_labels slack top ns = labels_of (λ n. n.label) (lags slack top) ns

laggards_found :
    (slack : ℕ) (top : ℤ) (ns : List Sighting) (got : List String)
    → laggards slack top ns ≡ ok got
    → (got ≡ lagging_labels slack top ns)
      × All (λ n. lags slack top n ≡ true → n.expected_failure ≡ true) ns
unfolding laggards
laggards_found slack top [] got h = ground arith
laggards_found slack top (n ∷ ns) got h = elim (Bool-cases (lags slack top n)) [
  | inr level ↦ let ih = laggards_found slack top ns got (ground arith) in ground arith
  | inl behind ↦ elim (Result-cases (laggards slack top ns)) [
    | inl (g, e) ↦ let ih = laggards_found slack top ns g e in ground arith
    | inr (x, e) ↦ absurd (ground arith)
  ]
]

laggards_level :
    (slack : ℕ) (top : ℤ) (ns : List Sighting)
    → All (λ n. lags slack top n ≡ true → n.expected_failure ≡ true) ns
    → laggards slack top ns ≡ ok (lagging_labels slack top ns)
unfolding laggards
laggards_level slack top [] level = refl
laggards_level slack top (n ∷ ns) (own, level) =
    let ih = laggards_level slack top ns level in ground arith

-- All heights are valid, `top` is the greatest, a node that lags is expected to fail, and a node
-- that is expected to fail has its label on a node that lags.
pub record IsAgreed (slack : ℕ) (nodes : List Sighting) : Type 0 where
  pub top : ℤ
  pub valid : All (IsValid top) nodes
  pub attained : (top ≡ pos 0) ⊎ Some (λ n. height_of n ≡ top) nodes
  pub level : All (λ n. IsLagging slack top n → n.expected_failure ≡ true) nodes
  pub failing :
      All
        (λ n.
          n.expected_failure ≡ true → Some (λ m. (m.label ≡ n.label) × IsLagging slack top m) nodes)
        nodes

Some-IsLagging :
    (slack : ℕ) (top : ℤ) (label : String) (ns : List Sighting)
    → Some (λ m. (m.label ≡ label) × (lags slack top m ≡ true)) ns
      ↔ Some (λ m. (m.label ≡ label) × IsLagging slack top m) ns
Some-IsLagging slack top label ns = (
  Some-imp ns (λ m (e, l). (e, (lags_iff slack top m).0 l)),
  Some-imp ns (λ m (e, l). (e, (lags_iff slack top m).1 l)),
)

check_once-agrees :
    (slack : ℕ) (nodes : List Sighting) → check_once slack nodes ≡ ok tt → IsAgreed slack nodes
unfolding check_once
check_once-agrees slack nodes h = elim (Result-cases (scan (pos 0) nodes)) [
  | inr (x, e) ↦ absurd (ground arith)
  | inl (top, e) ↦ elim (Result-cases (laggards slack top nodes)) [
    | inr (x, f) ↦ absurd (ground arith)
    | inl (got, f) ↦
        let (le, vs, found) = scan-Top (pos 0) top nodes e in
        let (names, level) = laggards_found slack top nodes got f in
        let same : same_set (lagging_labels slack top nodes) (expected_labels nodes) ≡ true =
          ground arith in
        record {
          top = top;
          valid = vs;
          attained = found;
          level = All-imp nodes (λ n g l. g ((lags_iff slack top n).1 l)) level;
          failing =
              All-imp nodes (λ n g x. (Some-IsLagging slack top n.label nodes).0 (g x))
                ((same_labels (λ n. n.label) (lags slack top) (λ n. n.expected_failure) nodes
                    level).0
                  same);
        }
  ]
]

attained_low :
    (ns : List Sighting) (top : ℤ)
    → All (IsValid top) ns
    → (top ≡ pos 0) ⊎ Some (λ n. height_of n ≡ top) ns
    → pos 0 ≤ℤ top
attained_low [] top vs (inl e) = ground arith
attained_low [] top vs (inr found) = elim found [ ]
attained_low (n ∷ ns) top ((h, e, lo, hi), vs) found = omega arith

agreed-check_once :
    (slack : ℕ) (nodes : List Sighting) → IsAgreed slack nodes → check_once slack nodes ≡ ok tt
unfolding check_once
agreed-check_once slack nodes a =
    let level : All (λ n. lags slack a.top n ≡ true → n.expected_failure ≡ true) nodes =
      All-imp nodes (λ n g l. g ((lags_iff slack a.top n).0 l)) a.level in
    let low = attained_low nodes a.top a.valid a.attained in
    let same =
      (same_labels (λ n. n.label) (lags slack a.top) (λ n. n.expected_failure) nodes level).1
        (All-imp nodes (λ n g x. (Some-IsLagging slack a.top n.label nodes).1 (g x)) a.failing) in
    rw (
      scan_top (pos 0) a.top nodes low a.valid a.attained,
      check_once,
      laggards_level slack a.top nodes level,
      same,
    )

-- One round passes exactly where the nodes agree: all heights are readable and valid, no node lags
-- behind the greatest by more than the slack but one that is expected to fail, and every node that
-- is expected to fail has its label on a node that lags.
pub check_once-IsAgreed :
    (slack : ℕ) (nodes : List Sighting) → (check_once slack nodes ≡ ok tt) ↔ IsAgreed slack nodes
check_once-IsAgreed slack nodes = (check_once-agrees slack nodes, agreed-check_once slack nodes)

-- With a timeout, the check answers once the deadline has passed in some round `d`; and where it
-- passes, the nodes agreed in a round that it saw.
pub check_heights_settles :
    (slack : ℕ) (timeout : ℤ) (seen : ℕ → List Sighting) (expired slept : ℕ → Bool) (d : ℕ)
    → pos 0 <ℤ timeout
    → expired d ≡ true
    → (res : Result HeightError (Unit {0})) × (check_heights slack timeout seen expired slept
          (suc d)
        ≡ some res)
      × (res ≡ ok tt → (n : ℕ) × (n ≤ d) × IsAgreed slack (seen n))
unfolding check_heights
check_heights_settles slack timeout seen expired slept d given late =
    let rounds : Rounds HeightError = record {
      attempt = λ i. check_once slack (seen i);
      expired = expired;
      slept = slept;
    } in
    let positive : ltb_ℤ (pos 0) timeout ≡ true = ground arith in
    let (res, e) = poll_ends not_settled stopped rounds d late in
    (
      res,
      rw positive e,
      λ passed.
          let (n, lt, found) =
            (poll-IsReached not_settled stopped rounds (suc d)).0 (e ∙ ap some passed) in
          (n, omega arith, check_once-agrees slack (seen n) found.agrees),
    )
