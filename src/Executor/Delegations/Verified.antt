-- ===== src/Executor/Delegations/Verified.antt =====
-- What the step that verifies the stakes reports.
use norma.Base.{
  All-append, ℕ, ◌≡◌, ◌↔◌, refl, ap, sym, ◌∙◌, subst, some, inl, inr, List, [], ◌∷◌, ◌++◌, String,
  arith, All, Option-cases, nat_comparable, string_comparable,
}
use norma.Base.Map.{Map, lookup, All-lookup, beq_refl}
use norma.Base.Results.{Result, ok, ◌>>=◌, bind-ok, ok_injective, Result-cases}
use norma.Executor.State.{
  DelegatorAccount, StakeKey, stake_key_comparable, RunState, Registry, Crypto,
}
use norma.Executor.Delegations.{
  StakeError, DelegateTarget, UndelegateTarget, exec_delegate, exec_undelegate, StakeReport,
  unknown_delegator, query_failed, mismatch, verify_one, verify_from, exec_verify_stakes, or_zero,
}
use norma.Executor.Delegations.Tracked.{IsLedger, IsTracked}
use norma.Executor.Delegations.Stakes.{exec_delegate-Sound, exec_undelegate-Sound}

-- A step that moves stakes.
pub data StakeStep : Type 0 where
  delegates : List DelegateTarget → StakeStep
  undelegates : List UndelegateTarget → StakeStep

abbrev pub IsQueryFailure : StakeReport → Type 0
IsQueryFailure (unknown_delegator name) = ⊥
IsQueryFailure (query_failed key e) = Unit
IsQueryFailure (mismatch key expected actual) = ⊥

-- A state in which no step has moved a stake yet.
abbrev pub untouched : RunState → RunState
untouched s = record s { delegators = []; expected_stakes = [] }

append_empty : (xs ys : List StakeReport) → (xs ++ ys ≡ []) ↔ (xs ≡ []) × (ys ≡ [])
append_empty [] ys = ground arith
append_empty (x ∷ xs) ys = ground arith

module _ {W : Type 0} (crypto : Crypto) (reg : Registry W) where
  unfoldable pub exec_stakes : List StakeStep → RunState × W → Result StakeError (RunState × W)
  exec_stakes [] state = ok state
  exec_stakes (delegates targets ∷ steps) state =
      exec_delegate crypto reg targets state >>= exec_stakes steps
  exec_stakes (undelegates targets ∷ steps) state =
      exec_undelegate crypto reg targets state >>= exec_stakes steps

  -- The account of the key is known, and the chain answers with the expected stake.
  abbrev pub IsConfirmed : RunState → W → StakeKey × ℕ → Type 0
  IsConfirmed s w (key, n) =
      (account : DelegatorAccount) × (lookup key.delegator s.delegators ≡ some account)
      × (reg.get_delegator_stake w account.address key.validator_id ≡ ok n)

  verify_one-IsConfirmed :
      (s : RunState) (w : W) (key : StakeKey) (n : ℕ)
      → (verify_one crypto reg s w key n ≡ []) ↔ IsConfirmed s w (key, n)
  unfolding verify_one
  verify_one-IsConfirmed s w key n = elim (Option-cases (lookup key.delegator s.delegators)) [
    | inl e ↦ (λ h. absurd (ground arith), λ (a, g, q). absurd (cc))
    | inr (a, e) ↦ elim (Result-cases (reg.get_delegator_stake w a.address key.validator_id)) [
      | inr (x, f) ↦
          (λ h. absurd (ground arith), λ (b, g, q). let same : a ≡ b = ground arith in absurd (cc))
      | inl (actual, f) ↦ (
        λ h. (a, e, ground arith),
        λ (b, g, q).
            let same : a ≡ b = ground arith in
            let value : actual ≡ n = ok_injective {E = String} actual n (
              sym f
              ∙ ap (λ (c : DelegatorAccount). reg.get_delegator_stake w c.address key.validator_id)
                  same
              ∙ q) in
            ground arith,
      )
    ]
  ]

  verify_from-IsConfirmed :
      (s : RunState) (w : W) (m : Map StakeKey ℕ)
      → (verify_from crypto reg s w m ≡ []) ↔ All (IsConfirmed s w) m
  unfolding verify_from
  verify_from-IsConfirmed s w [] = (λ h. tt, λ h. refl)
  verify_from-IsConfirmed s w ((key, n) ∷ m) =
      let (to, from) =
        append_empty (verify_one crypto reg s w key n) (verify_from crypto reg s w m) in
      let (to', from') = verify_one-IsConfirmed s w key n in
      let (to'', from'') = verify_from-IsConfirmed s w m in
      (λ h. (to' (to h).0, to'' (to h).1), λ (h, hs). from (from' h, from'' hs))

  -- The verification passes exactly where the chain confirms every expected stake: the account of
  -- its delegator is known, and the query for it answers with that stake.
  exec_verify_stakes-IsConfirmed :
      (s : RunState) (w : W)
      → (exec_verify_stakes crypto reg s w ≡ []) ↔ All (IsConfirmed s w) s.expected_stakes
  exec_verify_stakes-IsConfirmed s w = verify_from-IsConfirmed s w s.expected_stakes

  module _ (stake : W → ℕ → ℕ → ℕ) (ledger : IsLedger crypto reg stake) where
    exec_stakes-IsTracked :
        (steps : List StakeStep) (state state' : RunState × W)
        → exec_stakes steps state ≡ ok state'
        → IsTracked crypto stake state.0 state.1
        → IsTracked crypto stake state'.0 state'.1
    unfolding exec_stakes
    exec_stakes-IsTracked [] state state' h t =
        subst (λ (z : RunState × W). IsTracked crypto stake z.0 z.1) (ok_injective state state' h) t
    exec_stakes-IsTracked (delegates targets ∷ steps) state state' h t =
        let (mid, h1, r1) =
          bind-ok (exec_delegate crypto reg targets state) (exec_stakes steps) state' h in
        exec_stakes-IsTracked steps mid state' r1
          (exec_delegate-Sound crypto reg stake ledger targets state mid h1 t)
    exec_stakes-IsTracked (undelegates targets ∷ steps) state state' h t =
        let (mid, h1, r1) =
          bind-ok (exec_undelegate crypto reg targets state) (exec_stakes steps) state' h in
        exec_stakes-IsTracked steps mid state' r1
          (exec_undelegate-Sound crypto reg stake ledger targets state mid h1 t)

    fresh-IsTracked :
        (s : RunState) (w : W)
        → ((name : String) (key i : ℕ)
            → crypto.derive name ≡ some key
            → stake w (crypto.address_of key) i ≡ 0)
        → IsTracked crypto stake (untouched s) w
    unfolding lookup
    fresh-IsTracked s w fresh = record {
      unique = tt;
      known = λ name account e. absurd (cc);
      keyed = λ key n e. absurd (cc);
      agree = λ name k i d. fresh name k i d;
    }

    verify_one_tracked :
        (s : RunState) (w : W) (key : StakeKey) (n : ℕ)
        → IsTracked crypto stake s w
        → lookup key s.expected_stakes ≡ some n
        → All IsQueryFailure (verify_one crypto reg s w key n)
    unfolding verify_one
    verify_one_tracked s w key n t e =
        let (account, found) = t.keyed key n e in
        let (d, a) = t.known key.delegator account found in
        let at = t.agree key.delegator account.private_key key.validator_id d in
        elim (Result-cases (reg.get_delegator_stake w account.address key.validator_id)) [
          | inr (x, f) ↦ rw (found, verify_one, f) (tt, tt)
          | inl (actual, f) ↦
              let same : actual ≡ n =
                ledger.reads w account.address key.validator_id actual f
                ∙ ap (λ b. stake w b key.validator_id) a
                ∙ at
                ∙ ap or_zero e in
              rw (found, verify_one, f, same, beq_refl n) tt
        ]

    verify_from_tracked :
        (s : RunState) (w : W) (m : Map StakeKey ℕ)
        → IsTracked crypto stake s w
        → All (λ entry. lookup entry.0 s.expected_stakes ≡ some entry.1) m
        → All IsQueryFailure (verify_from crypto reg s w m)
    unfolding verify_from
    verify_from_tracked s w [] t es = tt
    verify_from_tracked s w ((key, n) ∷ m) t (e, es) =
        All-append IsQueryFailure (verify_one crypto reg s w key n) (verify_from crypto reg s w m)
          (verify_one_tracked s w key n t e) (verify_from_tracked s w m t es)

    -- On a chain whose stake operations act as `IsLedger` states: from a state in which no step has
    -- moved a stake, with no delegator holding one on the chain, any sequence of delegations and
    -- undelegations that succeeds leads to a state whose verification reports no unknown delegator
    -- and no mismatch: at most that a query failed.
    pub exec_stakes_verified :
        (steps : List StakeStep) (s : RunState) (w : W) (state : RunState × W)
        → ((name : String) (key i : ℕ)
            → crypto.derive name ≡ some key
            → stake w (crypto.address_of key) i ≡ 0)
        → exec_stakes steps (untouched s, w) ≡ ok state
        → All IsQueryFailure (exec_verify_stakes crypto reg state.0 state.1)
    exec_stakes_verified steps s w state fresh h =
        let t0 : IsTracked crypto stake (untouched s) w = fresh-IsTracked s w fresh in
        let t = exec_stakes-IsTracked steps (untouched s, w) state h t0 in
        verify_from_tracked state.0 state.1 state.0.expected_stakes t
          (All-lookup state.0.expected_stakes t.unique)
