-- ===== src/Checking/Hashes/Consistency.antt =====
-- What a passing block hash check says of the healthy nodes.
use norma.Base.{
  ℕ, zero, suc, ◌+◌, ◌-◌, ◌^◌, ◌≡◌, ◌≤◌, ◌<◌, ◌⊎◌, refl, sym, ap, subst, ◌∙◌, inl, inr, true, false,
  none, some, List, [], ◌∷◌, String, arith, All, Some, ltb, if◌then◌else◌, ◌==◌, nat_comparable,
  string_comparable, Bool-cases, Option-cases,
}
use norma.Base.Results.{ok, bind-ok}
use norma.Checking.Hashes.{
  BlockHashes, Fetched, unavailable, absent, found, Client, Peer, dial, all_expected, healthy,
  height_from, common_height, same_hashes, compare_from, or_no_reference, compare_healthy_nodes,
  record_failing_nodes, compare_blocks, check_blocks, check_hashes,
}

same_hashes-eq : (a b : BlockHashes) → same_hashes a b ≡ true → a ≡ b
same_hashes-eq a b h =
    let s : a.state_root ≡ b.state_root = ground arith in
    let r : a.receipts_root ≡ b.receipts_root = ground arith in
    let x : a.hash ≡ b.hash = ground arith in
    λ i. record { hash = x i; state_root = s i; receipts_root = r i }

-- A healthy node reports these hashes for the block.
abbrev pub Reports : ℕ → BlockHashes → Peer → Type 0
Reports b r n = (c : Client) → healthy n ≡ some c → c.block b ≡ found r

abbrev pub Reaches : ℕ → Peer → Type 0
Reaches limit n =
    (c : Client) → healthy n ≡ some c → (h : ℕ) × (c.block_number ≡ some h) × (limit ≤ h)

abbrev pub IsHealthy : Peer → Type 0
IsHealthy n = (c : Client) × (healthy n ≡ some c)

Fetched-cases :
    (f : Fetched) → ((f ≡ unavailable) ⊎ (f ≡ absent)) ⊎ ((x : BlockHashes) × (f ≡ found x))
Fetched-cases unavailable = inl (inl refl)
Fetched-cases absent = inl (inr refl)
Fetched-cases (found x) = inr (x, refl)

height_from-Reaches :
    (top k : ℕ) (ns : List Peer) (limit asked : ℕ)
    → height_from top k ns ≡ ok (limit, asked)
    → (limit ≤ top) × All (Reaches limit) ns × ((asked ≡ k) ⊎ Some IsHealthy ns)
unfolding height_from
height_from-Reaches top k [] limit asked h = (ground arith, tt, inl (ground arith))
height_from-Reaches top k (n ∷ ns) limit asked h = elim (Option-cases (healthy n)) [
  | inl e ↦
      let (le, rs, live) = height_from-Reaches top k ns limit asked (rw (height_from, e) at h) in
      (le, (λ c f. absurd (cc), rs), elim live [ inl a ↦ inl a | inr s ↦ inr (inr s) ])
  | inr (c, e) ↦ elim (Option-cases c.block_number) [
    | inl f ↦ absurd (ground arith)
    | inr (height, f) ↦
        let next = if ltb height top then height else top in
        let (le, rs, live) =
          height_from-Reaches next (k + 1) ns limit asked (rw (height_from, e, f) at h) in
        let low : limit ≤ height = ground arith in
        (
          ground arith,
          (
            λ c' g.
                let same : c ≡ c' = ground arith in
                (height, sym (ap (λ z. z.block_number) same) ∙ f, low),
            rs,
          ),
          inr (inl (c, e)),
        )
  ]
]

compare_from-Reports :
    (b : ℕ) (r r' : BlockHashes) (ns : List Peer)
    → compare_from b (some r) ns ≡ ok (some r')
    → (r ≡ r') × All (Reports b r) ns
unfolding compare_from
compare_from-Reports b r r' [] h = (ground arith, tt)
compare_from-Reports b r r' (n ∷ ns) h = elim (Option-cases (healthy n)) [
  | inl e ↦
      let (same, rs) = compare_from-Reports b r r' ns (rw (compare_from, e) at h) in
      (same, (λ c f. absurd (cc), rs))
  | inr (c, e) ↦ elim (Fetched-cases (c.block b)) [
    | inl (inl f) ↦ absurd (ground arith)
    | inl (inr f) ↦ absurd (ground arith)
    | inr (x, f) ↦ elim (Bool-cases (same_hashes r x)) [
      | inr other ↦ absurd (ground arith)
      | inl equal ↦
          let (same, rs) = compare_from-Reports b r r' ns (rw (compare_from, e, f, equal) at h) in
          (
            same,
            (
              λ c' g.
                  let client : c ≡ c' = ground arith in
                  sym (ap (λ z. z.block b) client) ∙ f ∙ ap found (sym (same_hashes-eq r x equal)),
              rs,
            ),
          )
    ]
  ]
]

compare_start-Reports :
    (b : ℕ) (r : BlockHashes) (ns : List Peer)
    → compare_from b none ns ≡ ok (some r)
    → All (Reports b r) ns
unfolding compare_from
compare_start-Reports b r [] h = absurd (ground arith)
compare_start-Reports b r (n ∷ ns) h = elim (Option-cases (healthy n)) [
  | inl e ↦ (λ c f. absurd (cc), compare_start-Reports b r ns (rw (compare_from, e) at h))
  | inr (c, e) ↦ elim (Fetched-cases (c.block b)) [
    | inl (inl f) ↦ absurd (ground arith)
    | inl (inr f) ↦ absurd (ground arith)
    | inr (x, f) ↦
        let (same, rs) = compare_from-Reports b x r ns (rw (compare_from, e, f) at h) in
        (
          λ c' g.
              let client : c ≡ c' = ground arith in
              sym (ap (λ z. z.block b) client) ∙ f ∙ ap found same,
          subst (λ z. All (Reports b z) ns) same rs,
        )
  ]
]

compare_healthy_nodes-Reports :
    (b : ℕ) (r : BlockHashes) (ns : List Peer)
    → compare_healthy_nodes b ns ≡ ok r
    → All (Reports b r) ns
unfolding compare_healthy_nodes
compare_healthy_nodes-Reports b r ns h =
    let (o, h1, h2) = bind-ok (compare_from b none ns) (or_no_reference b) r h in
    elim (Option-cases o) [
      | inl e ↦ absurd (ground arith)
      | inr (x, e) ↦
          let same : x ≡ r = ground arith in
          compare_start-Reports b r ns (h1 ∙ ap ok (e ∙ ap some same))
    ]

-- The healthy nodes agree on a block.
abbrev pub Agree : List Peer → ℕ → Type 0
Agree ns b = (r : BlockHashes) × All (Reports b r) ns

compare_blocks-Agree :
    (ns : List Peer) (k b : ℕ) (got got' : List String)
    → compare_blocks ns k b got ≡ ok got'
    → (m : ℕ) → b ≤ m
    → m < b + k
    → Agree ns m
unfolding compare_blocks
compare_blocks-Agree ns zero b got got' h m lo hi = absurd (omega arith)
compare_blocks-Agree ns (suc k) b got got' h m lo hi =
    let (r, h1, h2) =
      bind-ok (compare_healthy_nodes b ns)
        (λ r. compare_blocks ns k (b + 1) (record_failing_nodes b r ns got)) got' h in
    elim (Bool-cases (ltb b m)) [
      | inl after ↦
          compare_blocks-Agree ns k (b + 1) (record_failing_nodes b r ns got) got' h2 m
            (ground arith) (omega arith)
      | inr here ↦
          let same : b ≡ m = ground arith in
          subst (Agree ns) same (r, compare_healthy_nodes-Reports b r ns h1)
    ]

common_height-Reaches :
    (ns : List Peer) (limit : ℕ)
    → common_height ns ≡ ok limit
    → (2 ≤ limit) × Some IsHealthy ns × All (Reaches limit) ns
unfolding common_height
common_height-Reaches ns limit h =
    let ((top, asked), h1, h2) = bind-ok (height_from (2 ^ 64 - 1) 0 ns) _ limit h in
    let (le, rs, live) = height_from-Reaches (2 ^ 64 - 1) 0 ns top asked h1 in
    let asked_some : (asked == 0) ≡ false = ground arith in
    let same : top ≡ limit = ground arith in
    let high : 2 ≤ limit = ground arith in
    (
      high,
      elim live [ inl none_asked ↦ absurd (ground arith) | inr s ↦ s ],
      subst (λ z. All (Reaches z) ns) same rs,
    )

-- Where the check passes, either every node is expected to fail, or there is a height of at least
-- 2 that every healthy node reports or exceeds, some node is healthy, and the healthy nodes report
-- the same hashes for every block up to that height.
pub check_hashes-Agree :
    (ns : List Peer)
    → check_hashes ns ≡ ok tt
    → (all_expected ns ≡ true)
      ⊎ ((limit : ℕ) × (2 ≤ limit)
          × Some IsHealthy ns
          × All (Reaches limit) ns
          × ((b : ℕ) → b ≤ limit → Agree ns b))
unfolding check_hashes check_blocks
check_hashes-Agree ns h = elim (Bool-cases (all_expected ns)) [
  | inl every ↦ inl every
  | inr some_healthy ↦
      let (got, h1, h2) =
        bind-ok (dial ns) (λ got. if all_expected ns then ok tt else check_blocks ns got) tt h in
      let run : check_blocks ns got ≡ ok tt =
        subst (λ b. (if b then ok tt else check_blocks ns got) ≡ ok tt) some_healthy h2 in
      let (limit, h3, h4) = bind-ok (common_height ns) _ tt run in
      let (got', h5, h6) = bind-ok (compare_blocks ns (limit + 1) 0 got) _ tt h4 in
      let (high, live, rs) = common_height-Reaches ns limit h3 in
      inr (
        limit,
        high,
        live,
        rs,
        λ b le. compare_blocks-Agree ns (limit + 1) 0 got got' h5 b (omega arith) (omega arith),
      )
]
