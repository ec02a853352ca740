-- ===== src/Parser/Steps/Keys.antt =====
-- The keys of a step that was read.
use norma.Base.{
  ℕ, ◌==◌, ◌≡◌, inl, inr, refl, ap, ◌∙◌, sym, Bool, true, false, Option, none, some, List, [], ◌∷◌,
  String, if◌then◌else◌, arith, Bool-cases, Option-cases, contains, All, ◌⊎◌, string_comparable,
}
use norma.Base.Results.{Result, ok, err, ◌>>=◌, bind-ok, ok_injective}
use norma.Parser.Functions.{StepFunction, to_step_function}
use norma.Parser.Scenario.{Step, empty_step}
use norma.Parser.Yaml.{Yaml, ParseError, with_line}
use norma.Parser.Steps.{
  step_parameters, is_run_app, identifier_value, set_step_parameter, parse_step_parameter,
  take_function, parse_functions, parse_parameters, parse_function_value, second_pass,
  unmarshal_mapping,
}

-- A result that, where it is a step, has a function as given.
abbrev HasFunction : {F : Type 0} → Option StepFunction → Result ParseError (Step F) → Type 0
HasFunction {F = F} g r = (s : Step F) → r ≡ ok s → s.function ≡ g

if-HasFunction :
    {F : Type 0} (g : Option StepFunction) (b : Bool) (x y : Result ParseError (Step F))
    → HasFunction g x
    → HasFunction g y
    → HasFunction g (if b then x else y)
if-HasFunction g true x y p q = p
if-HasFunction g false x y p q = q

bind-HasFunction :
    {F A : Type 0} (g : Option StepFunction) (m : Result ParseError A) (set : A → Step F)
    → ((a : A) → (set a).function ≡ g)
    → HasFunction g (m >>= λ a. ok (set a))
bind-HasFunction g m set keeps s h =
    let (a, read, done) = bind-ok m (λ a. ok (set a)) s h in
    ap (λ x. x.function) (sym (ok_injective (set a) s done)) ∙ keeps a

ok-HasFunction : {F : Type 0} (t : Step F) → HasFunction t.function (ok t)
ok-HasFunction t s h = ap (λ x. x.function) (sym (ok_injective t s h))

line-HasFunction :
    {F : Type 0} (g : Option StepFunction) (n : ℕ) (r : Result ParseError (Step F))
    → HasFunction g r
    → HasFunction g (with_line n r)
line-HasFunction g n (ok t) p = p
line-HasFunction g n (err e) p = λ s h. absurd cc

module _ {N F : Type 0} (yaml : Yaml N F) where
  open yaml use {value, line, entries}

  type_set-function :
      (f : StepFunction) (t : String) (s : Step F)
      → (if is_run_app f then record s { app_type = t } else record s { node_type = t }).function
        ≡ s.function
  type_set-function f t s = elim (Bool-cases (is_run_app f)) [
    | inl e ↦ rw e refl
    | inr e ↦ rw e refl
  ]

  set_step_parameter-HasFunction :
      (f : StepFunction) (key : String) (v : N) (s : Step F)
      → HasFunction s.function (set_step_parameter yaml f key v s)
  unfolding set_step_parameter
  set_step_parameter-HasFunction f key v s =
      if-HasFunction s.function (key == "type") _ _
        (bind-HasFunction s.function _ _ (λ t. type_set-function f t s))
        (if-HasFunction s.function (key == "imageName") _ _
          (bind-HasFunction s.function _ _ (λ t. refl))
          (if-HasFunction s.function (key == "dataVolume") _ _
            (bind-HasFunction s.function _ _ (λ t. refl))
            (if-HasFunction s.function (key == "stake") _ _
              (bind-HasFunction s.function _ _ (λ t. refl))
              (if-HasFunction s.function (key == "instances") _ _
                (bind-HasFunction s.function _ _ (λ t. refl))
                (if-HasFunction s.function (key == "failing") _ _
                  (bind-HasFunction s.function _ _ (λ t. refl))
                  (if-HasFunction s.function (key == "extraArguments") _ _
                    (bind-HasFunction s.function _ _ (λ t. refl))
                    (if-HasFunction s.function (key == "users") _ _
                      (bind-HasFunction s.function _ _ (λ t. refl))
                      (if-HasFunction s.function (key == "rate") _ _
                        (bind-HasFunction s.function _ _ (λ t. refl)) (ok-HasFunction s)))))))))

  parse_function_value-HasFunction :
      (f : StepFunction) (v : N) (s : Step F)
      → HasFunction s.function (parse_function_value yaml f v s)
  unfolding parse_function_value
  parse_function_value-HasFunction StepFunction.update_rules v s =
      bind-HasFunction s.function _ _ (λ a. refl)
  parse_function_value-HasFunction StepFunction.undelegate v s =
      bind-HasFunction s.function _ _ (λ a. refl)
  parse_function_value-HasFunction StepFunction.delegate v s =
      bind-HasFunction s.function _ _ (λ a. refl)
  parse_function_value-HasFunction StepFunction.verify_stakes v s =
      bind-HasFunction s.function _ _ (λ a. refl)
  parse_function_value-HasFunction StepFunction.advance_epoch v s =
      bind-HasFunction s.function _ _ (λ a. refl)
  parse_function_value-HasFunction StepFunction.wait_for_epoch v s =
      bind-HasFunction s.function _ _ (λ a. refl)
  parse_function_value-HasFunction StepFunction.wait_for v s =
      bind-HasFunction s.function _ _ (λ a. refl)
  parse_function_value-HasFunction StepFunction.checks v s =
      bind-HasFunction s.function _ _ (λ a. refl)
  parse_function_value-HasFunction StepFunction.kill_sonic v s =
      ok-HasFunction (record s { identifier = identifier_value yaml v s.identifier })
  parse_function_value-HasFunction StepFunction.heal_db v s =
      ok-HasFunction (record s { identifier = identifier_value yaml v s.identifier })
  parse_function_value-HasFunction StepFunction.start_node v s =
      ok-HasFunction (record s { identifier = identifier_value yaml v s.identifier })
  parse_function_value-HasFunction StepFunction.stop_node v s =
      ok-HasFunction (record s { identifier = identifier_value yaml v s.identifier })
  parse_function_value-HasFunction StepFunction.run_app v s =
      ok-HasFunction (record s { identifier = identifier_value yaml v s.identifier })
  parse_function_value-HasFunction StepFunction.stop_app v s =
      ok-HasFunction (record s { identifier = identifier_value yaml v s.identifier })

  -- The functions among the keys of a mapping.
  abbrev pub function_keys : List (N × N) → List StepFunction
  function_keys [] = []
  function_keys ((k, v) ∷ es) = elim (to_step_function (value k)) [
    | none ↦ function_keys es
    | some f ↦ f ∷ function_keys es
  ]

  -- A key is a function, or a parameter that the function of the step accepts.
  abbrev pub IsTaken : StepFunction → N × N → Type 0
  IsTaken f (k, v) =
      to_step_function (value k) ≡ none → contains (step_parameters f) (value k) ≡ true

  parameter-kept :
      (f : StepFunction) (k v : N) (s s' : Step F)
      → parse_step_parameter yaml f (k, v) s ≡ ok s'
      → (contains (step_parameters f) (value k) ≡ true) × (s'.function ≡ s.function)
  unfolding parse_step_parameter
  parameter-kept f k v s s' h = elim (Bool-cases (contains (step_parameters f) (value k))) [
    | inl known ↦ (
      known,
      line-HasFunction s.function (line k) _ (set_step_parameter-HasFunction f (value k) v s) s'
          (rw (parse_step_parameter, known) at h),
    )
    | inr unknown ↦ absurd (ground (arith, rw (parse_step_parameter, unknown) at h))
  ]

  parameters-kept :
      (f : StepFunction) (es : List (N × N)) (s s' : Step F)
      → parse_parameters yaml f es s ≡ ok s'
      → All (IsTaken f) es × (s'.function ≡ s.function)
  unfolding parse_parameters
  parameters-kept f [] s s' h = (tt, ok-HasFunction s s' h)
  parameters-kept f ((k, v) ∷ es) s s' h = elim (Option-cases (to_step_function (value k))) [
    | inl plain ↦
        let (t, read, h') =
          bind-ok (parse_step_parameter yaml f (k, v) s) (parse_parameters yaml f es) s'
            (rw (parse_parameters, plain) at h) in
        let (known, same) = parameter-kept f k v s t read in
        let (others, same') = parameters-kept f es t s' h' in ((λ _. known, others), same' ∙ same)
    | inr (g, is) ↦
        let (others, same) = parameters-kept f es s s' (rw (parse_parameters, is) at h) in
        ((λ plain. ground (arith, is, plain), others), same)
  ]

  -- After a function was found, the rest of the first pass finds no other.
  functions_after :
      (g : StepFunction) (es : List (N × N)) (s s' : Step F)
      → s.function ≡ some g
      → parse_functions yaml es s ≡ ok s'
      → (function_keys es ≡ []) × (s'.function ≡ some g)
  unfolding parse_functions take_function
  functions_after g [] s s' e h = (refl, ok-HasFunction s s' h ∙ e)
  functions_after g ((k, v) ∷ es) s s' e h = elim (Option-cases (to_step_function (value k))) [
    | inl plain ↦
        let (none_left, same) = functions_after g es s s' e (rw (parse_functions, plain) at h) in
        (rw (function_keys, plain) none_left, same)
    | inr (f, is) ↦ absurd (ground (arith, rw (parse_functions, take_function, is, e) at h))
  ]

  functions_from :
      (es : List (N × N)) (s s' : Step F)
      → s.function ≡ none
      → parse_functions yaml es s ≡ ok s'
      → (s'.function ≡ none)
        ⊎ ((f : StepFunction) × (function_keys es ≡ f ∷ []) × (s'.function ≡ some f))
  unfolding parse_functions take_function
  functions_from [] s s' e h = inl (ok-HasFunction s s' h ∙ e)
  functions_from ((k, v) ∷ es) s s' e h = elim (Option-cases (to_step_function (value k))) [
    | inl plain ↦
        rw (function_keys, plain) (functions_from es s s' e (rw (parse_functions, plain) at h))
    | inr (f, is) ↦
        let (t, read, h') =
          bind-ok (take_function yaml f (k, v) s) (parse_functions yaml es) s'
            (rw (parse_functions, is) at h) in
        let named =
          line-HasFunction (some f) (line v) _
            (parse_function_value-HasFunction f v (record s { function = some f })) t
            (rw (take_function, e) at read) in
        let (none_left, same) = functions_after f es t s' named h' in
        inr (f, rw (function_keys, is, none_left) refl, same)
  ]

  -- A mapping that is read as a step has exactly one function among its keys, which is the step's,
  -- and each of its other keys is a parameter of that function; so no step is read from a mapping
  -- with two functions, none, or a parameter out of place.
  pub unmarshal_mapping-keys :
      (n : N) (s : Step F)
      → unmarshal_mapping yaml n ≡ ok s
      → (f : StepFunction) × (s.function ≡ some f)
        × (function_keys (entries n) ≡ f ∷ [])
        × All (IsTaken f) (entries n)
  unfolding unmarshal_mapping
  unmarshal_mapping-keys n s h =
      let (t, first, second) =
        bind-ok (parse_functions yaml (entries n) empty_step) (second_pass yaml n) s h in
      elim (functions_from (entries n) empty_step t refl first) [
        | inl no_function ↦ absurd (ground (arith, rw (second_pass, no_function) at second))
        | inr (f, keys, has) ↦
            let (taken, same) =
              parameters-kept f (entries n) t s (rw (second_pass, has) at second) in
            (f, same ∙ has, keys, taken)
      ]
