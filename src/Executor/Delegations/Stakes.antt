-- ===== src/Executor/Delegations/Stakes.antt =====
-- The steps that move stakes keep the bookkeeping in line with the chain, so that the step that
-- verifies the stakes finds no difference.
use norma.Base.{
  ℕ, ◌+◌, ◌-◌, ◌%◌, ◌^◌, ◌≡◌, subst, ◌∙◌, inl, inr, Bool, some, List, [], ◌∷◌, String, arith,
  Bool-cases, Option-cases, if◌then◌else◌, ◌==◌, nat_comparable, string_comparable,
}
use norma.Base.Map.{lookup}
use norma.Base.Results.{ok, ◌>>=◌, bind-ok, ok_injective}
use norma.Executor.State.{DelegatorAccount, stake_key_comparable, RunState, Registry, Crypto}
use norma.Executor.Delegations.{
  or_fail, resolve_validator_id, DelegateTarget, UndelegateTarget, or_zero, get_or_create_delegator,
  add_stake, delegator_gas_budget, delegate_one, exec_delegate, min, drop_stake, effective,
  undelegate_one, undelegate_self, undelegate_external, exec_undelegate, fund_failed,
  delegate_failed, undelegate_failed, unregister_failed,
}
use norma.Executor.Delegations.Tracked.{
  IsLedger, IsTracked, key_of, or_fail-ok, get_or_create-IsTracked, book-IsTracked,
}

module _ {W : Type 0} (crypto : Crypto) (reg : Registry W) (stake : W → ℕ → ℕ → ℕ)
    (ledger : IsLedger crypto reg stake) where
  abbrev pub Sound : RunState × W → Type 0
  Sound state = IsTracked crypto stake state.0 state.1

  -- The delegators' stakes stand as they were.
  kept-Sound :
      (s : RunState) (w w' : W)
      → ((name : String) (k i : ℕ)
          → crypto.derive name ≡ some k
          → stake w' (crypto.address_of k) i ≡ stake w (crypto.address_of k) i)
      → IsTracked crypto stake s w
      → IsTracked crypto stake s w'
  kept-Sound s w w' kept t = record {
    unique = t.unique;
    known = t.known;
    keyed = t.keyed;
    agree = λ m l i f. kept m l i f ∙ t.agree m l i f;
  }

  delegated-Sound :
      (s : RunState) (w w' : W) (name : String) (id n : ℕ) (account : DelegatorAccount)
      → reg.delegate w id n account.private_key ≡ ok w'
      → lookup name s.delegators ≡ some account
      → IsTracked crypto stake s w
      → IsTracked crypto stake (add_stake (key_of name id) n s) w'
  delegated-Sound s w w' name id n account h found t =
      let k = account.private_key in
      let d = (t.known name account found).0 in
      let old = or_zero (lookup (key_of name id) s.expected_stakes) in
      let before : stake w (crypto.address_of k) id ≡ old = t.agree name k id d in
      let after = ledger.delegates w w' id n k h in
      let small : (old + n) % 2 ^ 64 ≡ old + n =
        ground (
          arith,
          before,
          after (crypto.address_of k) id,
          ledger.word w' (crypto.address_of k) id,
        ) in
      book-IsTracked crypto reg stake ledger s w w' name k id ((old + n) % 2 ^ 64) account d found
        (λ b i. ground (
          arith,
          after b i,
          small,
          before,
          nat_comparable.same_iff b (crypto.address_of k),
          nat_comparable.same_iff i id,
        ))
        t

  delegate_one-Sound :
      (target : DelegateTarget) (state state' : RunState × W)
      → delegate_one crypto reg target state ≡ ok state'
      → Sound state
      → Sound state'
  unfolding delegate_one
  delegate_one-Sound target (s, w) state' h t =
      let (id, h1, r1) = bind-ok (resolve_validator_id s target.node) _ state' h in
      let ((account, s'), h2, r2) =
        bind-ok (get_or_create_delegator crypto reg s target.delegator) _ state' r1 in
      let (w1, h3, r3) =
        bind-ok
          (or_fail fund_failed
            (reg.fund_delegator w account.address ((target.stake + delegator_gas_budget) % 2 ^ 64)))
          _ state' r2 in
      let (w2, h4, r4) =
        bind-ok (or_fail delegate_failed (reg.delegate w1 id target.stake account.private_key)) _
          state' r3 in
      let (t1, found) =
        get_or_create-IsTracked crypto reg stake ledger s s' w target.delegator account h2 t in
      let t2 =
        kept-Sound s' w w1
          (λ name k i d.
            ledger.funds w w1 _ _ (or_fail-ok fund_failed _ w1 h3) (crypto.address_of k) i)
          t1 in
      let t3 =
        delegated-Sound s' w1 w2 target.delegator id target.stake account
          (or_fail-ok delegate_failed _ w2 h4) found t2 in
      subst Sound (ok_injective _ state' r4) t3

  pub exec_delegate-Sound :
      (targets : List DelegateTarget) (state state' : RunState × W)
      → exec_delegate crypto reg targets state ≡ ok state'
      → Sound state
      → Sound state'
  unfolding exec_delegate
  exec_delegate-Sound [] state state' h t = subst Sound (ok_injective state state' h) t
  exec_delegate-Sound (target ∷ targets) state state' h t =
      let (mid, h1, r1) =
        bind-ok (delegate_one crypto reg target state) (exec_delegate crypto reg targets) state'
          h in
      exec_delegate-Sound targets mid state' r1 (delegate_one-Sound target state mid h1 t)

  undelegated-Sound :
      (s : RunState) (w w' : W) (name : String) (id n : ℕ) (account : DelegatorAccount)
      → reg.undelegate_as w id n account.private_key ≡ ok w'
      → lookup name s.delegators ≡ some account
      → IsTracked crypto stake s w
      → IsTracked crypto stake
          (drop_stake (key_of name id) (effective n (lookup (key_of name id) s.expected_stakes)) s)
          w'
  undelegated-Sound s w w' name id n account h found t =
      let k = account.private_key in
      let d = (t.known name account found).0 in
      let before = t.agree name k id d in
      let after = ledger.undelegates w w' id n k h in
      elim (Option-cases (lookup (key_of name id) s.expected_stakes)) [
        | inl e ↦
            rw (e, drop_stake)
              (kept-Sound s w w'
                (λ m l i f. ground (
                  arith,
                  after (crypto.address_of l) i,
                  before,
                  e,
                  nat_comparable.same_iff (crypto.address_of l) (crypto.address_of k),
                  nat_comparable.same_iff i id,
                ))
                t)
        | inr (r, e) ↦
            rw (e, drop_stake)
              (book-IsTracked crypto reg stake ledger s w w' name k id
                (r - min (effective n (lookup (key_of name id) s.expected_stakes)) r) account d
                found
                (λ b i. ground (
                  arith,
                  after b i,
                  before,
                  e,
                  nat_comparable.same_iff b (crypto.address_of k),
                  nat_comparable.same_iff i id,
                ))
                t)
      ]

  undelegate_self-Sound :
      (target : UndelegateTarget) (id : ℕ) (state state' : RunState × W)
      → undelegate_self crypto reg target id state ≡ ok state'
      → Sound state
      → Sound state'
  undelegate_self-Sound target id (s, w) state' h t =
      let (w', h1, r1) =
        bind-ok (or_fail unregister_failed (reg.unregister_validator w id (or_zero target.stake))) _
          state' h in
      let kept =
        ledger.unregisters w w' id (or_zero target.stake) (or_fail-ok unregister_failed _ w' h1) in
      subst Sound (ok_injective (s, w') state' r1) (kept-Sound s w w' kept t)

  undelegate_external-Sound :
      (target : UndelegateTarget) (id : ℕ) (state state' : RunState × W)
      → undelegate_external crypto reg target id state ≡ ok state'
      → Sound state
      → Sound state'
  unfolding undelegate_external
  undelegate_external-Sound target id (s, w) state' h t =
      elim (Option-cases (lookup target.delegator s.delegators)) [
        | inl e ↦ absurd (ground arith)
        | inr (account, e) ↦
            let amount = or_zero target.stake in
            let key = key_of target.delegator id in
            let next = drop_stake key (effective amount (lookup key s.expected_stakes)) s in
            let op =
              or_fail undelegate_failed (reg.undelegate_as w id amount account.private_key) in
            let h' : op >>= (λ w'. ok (next, w')) ≡ ok state' = rw (undelegate_external, e) at h in
            let (w', h1, r1) = bind-ok op (λ w'. ok (next, w')) state' h' in
            subst Sound (ok_injective (next, w') state' r1) (
              undelegated-Sound s w w' target.delegator id amount account
                (or_fail-ok undelegate_failed _ w' h1) e t)
      ]

  undelegate_one-Sound :
      (target : UndelegateTarget) (state state' : RunState × W)
      → undelegate_one crypto reg target state ≡ ok state'
      → Sound state
      → Sound state'
  unfolding undelegate_one
  undelegate_one-Sound target (s, w) state' h t =
      let (id, h1, r1) = bind-ok (resolve_validator_id s target.node) _ state' h in
      let choice = λ (b : Bool).
        if b
        then undelegate_self crypto reg target id (s, w)
        else undelegate_external crypto reg target id (s, w) in
      elim (Bool-cases (target.delegator == "")) [
        | inl own ↦
            undelegate_self-Sound target id (s, w) state' (subst (λ b. choice b ≡ ok state') own r1)
              t
        | inr other ↦
            undelegate_external-Sound target id (s, w) state'
              (subst (λ b. choice b ≡ ok state') other r1) t
      ]

  pub exec_undelegate-Sound :
      (targets : List UndelegateTarget) (state state' : RunState × W)
      → exec_undelegate crypto reg targets state ≡ ok state'
      → Sound state
      → Sound state'
  unfolding exec_undelegate
  exec_undelegate-Sound [] state state' h t = subst Sound (ok_injective state state' h) t
  exec_undelegate-Sound (target ∷ targets) state state' h t =
      let (mid, h1, r1) =
        bind-ok (undelegate_one crypto reg target state) (exec_undelegate crypto reg targets) state'
          h in
      exec_undelegate-Sound targets mid state' r1 (undelegate_one-Sound target state mid h1 t)
