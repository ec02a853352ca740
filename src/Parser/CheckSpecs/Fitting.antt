-- ===== src/Parser/CheckSpecs/Fitting.antt =====
-- That a check that was read has only the parameters that its function accepts.
use norma.Base.{
  ℕ, ◌≡◌, inl, inr, refl, subst, List, [], ◌∷◌, string_comparable, arith, Bool-cases, Option-cases,
}
use norma.Base.Results.{Result, ok, err, bind-ok, ok_injective}
use norma.Parser.Functions.{CheckFunction, to_check_function}
use norma.Parser.Scenario.{CheckSpec, check_of}
use norma.Parser.Yaml.{
  Kind, scalar_node, sequence_node, mapping_node, another_node, Yaml, ParseError, at_line,
  check_parameter_not_valid, no_check_function, not_a_check, unknown_check, with_line,
}
use norma.Parser.CheckSpecs.{
  accepts, parse_check_parameter, parse_check_parameters, parse_check_entry, parse_check_entries,
  unmarshal_check_mapping, unmarshal_check_scalar, unmarshal_check, find_check_function,
}
use norma.Parser.CheckSpecs.Fits.{Fits, check_of-Fits, set-Fits}

line-ok : {A : Type 0} (n : ℕ) (m : Result ParseError A) (a : A) → with_line n m ≡ ok a → m ≡ ok a
line-ok n (ok b) a h = h
line-ok n (err e) a h = absurd cc

module _ {N F : Type 0} (yaml : Yaml N F) (f : CheckFunction) where
  open yaml use {value, line}

  parameter-Fits :
      (entry : N × N) (c c' : CheckSpec F)
      → parse_check_parameter yaml f entry c ≡ ok c'
      → Fits f c
      → Fits f c'
  unfolding parse_check_parameter
  parameter-Fits (k, v) c c' h fits =
      let h' = line-ok (line k) _ c' h in
      elim (Bool-cases (accepts f (value k))) [
        | inl known ↦ set-Fits yaml f (value k) v c c' known (rw known at h') fits
        | inr unknown ↦
            let never : err (check_parameter_not_valid (value k) f) ≡ ok c' = rw unknown at h' in
            absurd (ground (arith, never))
      ]

  parameters-Fits :
      (es : List (N × N)) (c c' : CheckSpec F)
      → parse_check_parameters yaml f es c ≡ ok c'
      → Fits f c
      → Fits f c'
  unfolding parse_check_parameters
  parameters-Fits [] c c' h fits = subst (Fits f) (ok_injective c c' h) fits
  parameters-Fits (e ∷ es) c c' h fits =
      let (d, read, h') =
        bind-ok (parse_check_parameter yaml f e c) (parse_check_parameters yaml f es) c' h in
      parameters-Fits es d c' h' (parameter-Fits e c d read fits)

  entry-Fits :
      (entry : N × N) (c c' : CheckSpec F)
      → parse_check_entry yaml f entry c ≡ ok c'
      → Fits f c
      → Fits f c'
  unfolding parse_check_entry
  entry-Fits (k, v) c c' h fits = elim (Option-cases (to_check_function (value k))) [
    | inl plain ↦ parameter-Fits (k, v) c c' (rw (parse_check_entry, plain) at h) fits
    | inr (g, function) ↦ parameters-Fits _ c c' (rw (parse_check_entry, function) at h) fits
  ]

  entries-Fits :
      (es : List (N × N)) (c c' : CheckSpec F)
      → parse_check_entries yaml f es c ≡ ok c'
      → Fits f c
      → Fits f c'
  unfolding parse_check_entries
  entries-Fits [] c c' h fits = subst (Fits f) (ok_injective c c' h) fits
  entries-Fits (e ∷ es) c c' h fits =
      let (d, read, h') =
        bind-ok (parse_check_entry yaml f e c) (parse_check_entries yaml f es) c' h in
      entries-Fits es d c' h' (entry-Fits e c d read fits)

module _ {N F : Type 0} (yaml : Yaml N F) where
  open yaml use {kind, value, line, entries}

  mapping-Fits :
      (n : N) (c : CheckSpec F)
      → unmarshal_check_mapping yaml n ≡ ok c
      → (f : CheckFunction) × Fits f c
  unfolding unmarshal_check_mapping
  mapping-Fits n c h = elim (Option-cases (find_check_function yaml (entries n))) [
    | inl none_found ↦
        let never : err (at_line (line n) no_check_function) ≡ ok c =
          rw (unmarshal_check_mapping, none_found) at h in
        absurd (ground (arith, never))
    | inr (f, found) ↦ (
      f,
      entries-Fits yaml f (entries n) (check_of f) c (rw (unmarshal_check_mapping, found) at h)
          (check_of-Fits F f),
    )
  ]

  scalar-Fits :
      (n : N) (c : CheckSpec F)
      → unmarshal_check_scalar yaml n ≡ ok c
      → (f : CheckFunction) × Fits f c
  scalar-Fits n c h = elim (Option-cases (to_check_function (value n))) [
    | inl none_found ↦
        let never : err (at_line (line n) (unknown_check (value n))) ≡ ok c =
          rw (unmarshal_check_scalar, none_found) at h in
        absurd (ground (arith, never))
    | inr (f, found) ↦ (
      f,
      subst (Fits f) (ok_injective (check_of f) c (rw (unmarshal_check_scalar, found) at h))
          (check_of-Fits F f),
    )
  ]

  of_kind :
      (n : N) (k : Kind) (c : CheckSpec F)
      → kind n ≡ k
      → unmarshal_check yaml n ≡ ok c
      → (f : CheckFunction) × Fits f c
  unfolding unmarshal_check
  of_kind n scalar_node c e h = scalar-Fits n c (rw (unmarshal_check, e) at h)
  of_kind n mapping_node c e h = mapping-Fits n c (rw (unmarshal_check, e) at h)
  of_kind n sequence_node c e h =
      let never : err (at_line (line n) not_a_check) ≡ ok c = rw (unmarshal_check, e) at h in
      absurd (ground (arith, never))
  of_kind n another_node c e h =
      let never : err (at_line (line n) not_a_check) ≡ ok c = rw (unmarshal_check, e) at h in
      absurd (ground (arith, never))

  -- A check that is read from a document, by whichever form, has a function, only parameters that
  -- this function accepts, and no negative duration.
  pub unmarshal_check-Fits :
      (n : N) (c : CheckSpec F) → unmarshal_check yaml n ≡ ok c → (f : CheckFunction) × Fits f c
  unmarshal_check-Fits n c h = of_kind n (kind n) c refl h
