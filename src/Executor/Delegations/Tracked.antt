-- ===== src/Executor/Delegations/Tracked.antt =====
-- The bookkeeping of the stakes against the stakes on the chain.
use norma.Base.{
  ℕ, ◌+◌, ◌-◌, ◌^◌, ◌<◌, ◌≡◌, refl, ap, sym, subst, inl, inr, ◌&&◌, some, String, arith, Bool-cases,
  Option-cases, if◌then◌else◌, ◌==◌, nat_comparable, string_comparable,
}
use norma.Base.Map.{lookup, insert, IsUnique, lookup-insert, lookup-insert_self, insert-IsUnique}
use norma.Base.Results.{Result, ok, err}
use norma.Executor.State.{
  DelegatorAccount, StakeKey, stake_key_comparable, RunState, Registry, Crypto,
}
use norma.Executor.Delegations.{StakeError, or_fail, or_zero, get_or_create_delegator}

-- What the executor relies on of the chain: `stake w a i` is the stake in S that the account of
-- address `a` has with validator `i`. Operations that succeed change it as their documentation
-- says, and different delegators have different addresses.
pub record IsLedger {W : Type 0} (crypto : Crypto) (reg : Registry W) (stake : W → ℕ → ℕ → ℕ)
    : Type 0 where
  pub word : (w : W) (a i : ℕ) → stake w a i < 2 ^ 64
  pub reads : (w : W) (a i n : ℕ) → reg.get_delegator_stake w a i ≡ ok n → n ≡ stake w a i
  pub funds :
      (w w' : W) (a n : ℕ)
      → reg.fund_delegator w a n ≡ ok w'
      → (b i : ℕ) → stake w' b i ≡ stake w b i
  pub delegates :
      (w w' : W) (id n key : ℕ)
      → reg.delegate w id n key ≡ ok w'
      → (b i : ℕ)
      → stake w' b i
        ≡ (if b == crypto.address_of key && i == id then stake w b i + n else stake w b i)
  pub undelegates :
      (w w' : W) (id n key : ℕ)
      → reg.undelegate_as w id n key ≡ ok w'
      → (b i : ℕ)
      → stake w' b i ≡ (
          if b == crypto.address_of key && i == id
          then (if n == 0 then 0 else stake w b i - n)
          else stake w b i)
  pub unregisters :
      (w w' : W) (id n : ℕ)
      → reg.unregister_validator w id n ≡ ok w'
      → (name : String) (key i : ℕ) → crypto.derive name ≡ some key
      → stake w' (crypto.address_of key) i ≡ stake w (crypto.address_of key) i
  pub separate :
      (n m : String) (k l : ℕ)
      → crypto.derive n ≡ some k
      → crypto.derive m ≡ some l
      → crypto.address_of k ≡ crypto.address_of l
      → n ≡ m

abbrev pub key_of : String → ℕ → StakeKey
key_of name id = record { delegator = name; validator_id = id }

-- The expected stake of every delegator with every validator is its stake on the chain.
pub record IsTracked {W : Type 0} (crypto : Crypto) (stake : W → ℕ → ℕ → ℕ) (s : RunState) (w : W)
    : Type 0 where
  pub unique : IsUnique s.expected_stakes
  pub known :
      (name : String) (account : DelegatorAccount)
      → lookup name s.delegators ≡ some account
      → (crypto.derive name ≡ some account.private_key)
        × (account.address ≡ crypto.address_of account.private_key)
  pub keyed :
      (key : StakeKey) (n : ℕ)
      → lookup key s.expected_stakes ≡ some n
      → (account : DelegatorAccount) × (lookup key.delegator s.delegators ≡ some account)
  pub agree :
      (name : String) (k i : ℕ)
      → crypto.derive name ≡ some k
      → stake w (crypto.address_of k) i ≡ or_zero (lookup (key_of name i) s.expected_stakes)

pub or_fail-ok :
    {A : Type 0} (f : String → StakeError) (r : Result String A) (a : A)
    → or_fail f r ≡ ok a
    → r ≡ ok a
or_fail-ok f (ok x) a h = ground arith
or_fail-ok f (err e) a h = absurd cc

key_beq : (n m : String) (i j : ℕ) → (key_of n i == key_of m j) ≡ (n == m && i == j)
key_beq n m i j = refl

module _ {W : Type 0} (crypto : Crypto) (reg : Registry W) (stake : W → ℕ → ℕ → ℕ)
    (ledger : IsLedger crypto reg stake) where
  create-IsTracked :
      (s : RunState) (w : W) (name : String) (k : ℕ)
      → crypto.derive name ≡ some k
      → IsTracked crypto stake s w
      → IsTracked crypto stake
          (record s {
            delegators =
                insert name
                  (record { name = name; private_key = k; address = crypto.address_of k })
                  s.delegators;
          })
          w
  create-IsTracked s w name k f t =
      let fresh : DelegatorAccount = record {
        name = name;
        private_key = k;
        address = crypto.address_of k;
      } in
      record {
        unique = t.unique;
        known = λ n a e. elim (Bool-cases (name == n)) [
          | inl same ↦
              let own : name ≡ n = (string_comparable.same_iff name n).0 same in
              let got : fresh ≡ a = ground (arith, lookup-insert name n fresh s.delegators) in
              subst
                (λ z.
                  (crypto.derive n ≡ some z.private_key)
                  × (z.address ≡ crypto.address_of z.private_key))
                got (subst (λ z. crypto.derive z ≡ some k) own f, refl)
          | inr other ↦ t.known n a (ground (arith, lookup-insert name n fresh s.delegators))
        ];
        keyed = λ key n e.
            let (a, g) = t.keyed key n e in
            elim (Bool-cases (name == key.delegator)) [
              | inl same ↦
                  (fresh, ground (arith, lookup-insert name key.delegator fresh s.delegators))
              | inr other ↦ (a, ground (arith, lookup-insert name key.delegator fresh s.delegators))
            ];
        agree = t.agree;
      }

  pub get_or_create-IsTracked :
      (s s' : RunState) (w : W) (name : String) (account : DelegatorAccount)
      → get_or_create_delegator crypto reg s name ≡ ok (account, s')
      → IsTracked crypto stake s w
      → IsTracked crypto stake s' w × (lookup name s'.delegators ≡ some account)
  unfolding get_or_create_delegator
  get_or_create-IsTracked s s' w name account h t = elim (Option-cases (lookup name s.delegators)) [
    | inr (a, e) ↦
        let same : (a ≡ account) × (s ≡ s') = ground arith in
        (subst (λ z. IsTracked crypto stake z w) same.1 t, rw (sym same.1, e) (ap some same.0))
    | inl e ↦ elim (Option-cases (crypto.derive name)) [
      | inl f ↦ absurd (ground arith)
      | inr (k, f) ↦
          let fresh : DelegatorAccount = record {
            name = name;
            private_key = k;
            address = crypto.address_of k;
          } in
          let next : RunState = record s { delegators = insert name fresh s.delegators } in
          let same : (fresh ≡ account) × (next ≡ s') = ground arith in
          (
            subst (λ z. IsTracked crypto stake z w) same.1 (create-IsTracked s w name k f t),
            rw (sym same.1, lookup-insert_self name fresh s.delegators) (ap some same.0),
          )
    ]
  ]

  -- A new stake with one validator, booked and on the chain.
  pub book-IsTracked :
      (s : RunState) (w w' : W) (name : String) (k id new : ℕ) (account : DelegatorAccount)
      → crypto.derive name ≡ some k
      → lookup name s.delegators ≡ some account
      → ((b i : ℕ)
          → stake w' b i ≡ (if b == crypto.address_of k && i == id then new else stake w b i))
      → IsTracked crypto stake s w
      → IsTracked crypto stake
          (record s { expected_stakes = insert (key_of name id) new s.expected_stakes })
          w'
  book-IsTracked s w w' name k id new account d found moved t = record {
    unique = insert-IsUnique (key_of name id) new s.expected_stakes t.unique;
    known = t.known;
    keyed = λ key n e. elim (Bool-cases (key_of name id == key)) [
      | inl same ↦
          let own : name ≡ key.delegator =
            ground (arith, string_comparable.same_iff name key.delegator) in
          (account, subst (λ m. lookup m s.delegators ≡ some account) own found)
      | inr other ↦
          t.keyed key n (ground (arith, lookup-insert (key_of name id) key new s.expected_stakes))
    ];
    agree = λ m l i f. ground (
      arith,
      moved (crypto.address_of l) i,
      lookup-insert (key_of name id) (key_of m i) new s.expected_stakes,
      t.agree m l i f,
      ledger.separate name m k l d f,
      string_comparable.same_iff name m,
      nat_comparable.same_iff (crypto.address_of l) (crypto.address_of k),
      nat_comparable.same_iff i id,
      nat_comparable.same_iff id i,
      ap crypto.derive,
      ap crypto.address_of,
    );
  }
