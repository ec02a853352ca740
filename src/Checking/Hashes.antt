-- ===== src/Checking/Hashes.antt =====
-- driver/checking/blocks_hashes.go: all healthy nodes report the same hashes for every block that
-- all of them have. A node answers the same each time it is asked during one check.
pub mod Consistency
use norma.Base.{
  ℕ, zero, suc, ◌+◌, ◌-◌, ◌^◌, Bool, true, false, not, ◌&&◌, Option, none, some, List, [], ◌∷◌,
  String, length, contains, same_set, ltb, if◌then◌else◌, ◌==◌, nat_comparable, string_comparable,
}
use norma.Base.Results.{Result, ok, err, ◌>>=◌}
use norma.Checking.Failures.{labels_of}

pub record BlockHashes : Type 0 where
  pub hash : ℕ
  pub state_root : ℕ
  pub receipts_root : ℕ

-- The answer of getBlockHashes.
pub data Fetched : Type 0 where
  unavailable : Fetched
  absent : Fetched
  found : BlockHashes → Fetched

pub record Client : Type 0 where
  pub block_number : Option ℕ
  pub block : ℕ → Fetched

-- A node, with the client that dialing it yields.
pub record Peer : Type 0 where
  pub label : String
  pub expected_failure : Bool
  pub client : Option Client

pub data HashError : Type 0 where
  unreachable : String → HashError
  no_height : String → HashError
  no_reachable_node : HashError
  too_early : ℕ → HashError
  no_block : ℕ → String → HashError
  differs : ℕ → String → HashError
  no_reference : ℕ → HashError
  unexpected_set : HashError

abbrev pub min_comparable_block : ℕ
min_comparable_block = 2

-- The first loop of Check: the labels of the nodes that may be unreachable, and are.
unfoldable pub dial : List Peer → Result HashError (List String)
dial [] = ok []
dial (n ∷ ns) =
    let rest = dial ns in
    elim n.client [
      | some c ↦ rest
      | none ↦
          if n.expected_failure
          then (rest >>= (λ got. ok (n.label ∷ got)))
          else err (unreachable n.label)
    ]

-- The labels of a set, each once.
unfoldable pub distinct : List String → List String
distinct [] = []
distinct (l ∷ ls) = let rest = distinct ls in if contains ls l then rest else l ∷ rest

abbrev pub expected_failures : List Peer → List String
expected_failures ns = labels_of (λ n. n.label) (λ n. n.expected_failure) ns

-- len(expectedFailures) == len(nodes)
abbrev pub all_expected : List Peer → Bool
all_expected ns = length (distinct (expected_failures ns)) == length ns

-- The client of a node that is compared: reachable, and not expected to fail.
unfoldable pub healthy : Peer → Option Client
healthy n = if n.expected_failure then none else n.client

-- The loop of commonHeight: the least height, and how many nodes were asked.
unfoldable pub height_from : ℕ → ℕ → List Peer → Result HashError (ℕ × ℕ)
height_from limit asked [] = ok (limit, asked)
height_from limit asked (n ∷ ns) =
    let rest = height_from limit asked ns in
    elim (healthy n) [
      | none ↦ rest
      | some c ↦ elim c.block_number [
        | none ↦ err (no_height n.label)
        | some height ↦ height_from (if ltb height limit then height else limit) (asked + 1) ns
      ]
    ]

-- commonHeight
unfoldable pub common_height : List Peer → Result HashError ℕ
common_height ns = height_from (2 ^ 64 - 1) 0 ns >>= (λ (limit, asked).
    if asked == 0
    then err no_reachable_node
    else if ltb limit min_comparable_block
    then err (too_early limit)
    else ok limit)

-- compareBlockHashes
abbrev pub same_hashes : BlockHashes → BlockHashes → Bool
same_hashes a b =
    a.state_root == b.state_root && (a.receipts_root == b.receipts_root && a.hash == b.hash)

-- The loop of compareHealthyNodes; the first block met is the reference.
unfoldable pub compare_from :
    ℕ → Option BlockHashes → List Peer → Result HashError (Option BlockHashes)
compare_from b reference [] = ok reference
compare_from b reference (n ∷ ns) =
    let rest = compare_from b reference ns in
    elim (healthy n) [
      | none ↦ rest
      | some c ↦ elim (c.block b) [
        | unavailable ↦ err (no_block b n.label)
        | absent ↦ err (no_block b n.label)
        | found block ↦ elim reference [
          | none ↦ compare_from b (some block) ns
          | some r ↦ if same_hashes r block then rest else err (differs b n.label)
        ]
      ]
    ]

abbrev pub or_no_reference : ℕ → Option BlockHashes → Result HashError BlockHashes
or_no_reference b none = err (no_reference b)
or_no_reference b (some r) = ok r

-- compareHealthyNodes
unfoldable pub compare_healthy_nodes : ℕ → List Peer → Result HashError BlockHashes
compare_healthy_nodes b ns = compare_from b none ns >>= or_no_reference b

-- A block that a node expected to fail does not have, or reports differently.
abbrev pub disagrees : BlockHashes → Fetched → Bool
disagrees r unavailable = true
disagrees r absent = true
disagrees r (found block) = not (same_hashes r block)

abbrev pub fails_now : ℕ → BlockHashes → Peer → Bool
fails_now b r n = elim n.client [
  | none ↦ false
  | some c ↦ n.expected_failure && disagrees r (c.block b)
]

-- recordFailingNodes
unfoldable pub record_failing_nodes : ℕ → BlockHashes → List Peer → List String → List String
record_failing_nodes b r [] got = got
record_failing_nodes b r (n ∷ ns) got =
    record_failing_nodes b r ns
      (if not (contains got n.label) && fails_now b r n then n.label ∷ got else got)

-- The loop of Check over `k` blocks from `b` on.
unfoldable pub compare_blocks : List Peer → ℕ → ℕ → List String → Result HashError (List String)
compare_blocks ns zero b got = ok got
compare_blocks ns (suc k) b got =
    compare_healthy_nodes b ns
    >>= (λ r. compare_blocks ns k (b + 1) (record_failing_nodes b r ns got))

abbrev set_verdict : List String → List String → Result HashError (Unit {0})
set_verdict got want = if same_set got want then ok tt else err unexpected_set

-- The part of Check behind the dialing.
unfoldable pub check_blocks : List Peer → List String → Result HashError (Unit {0})
check_blocks ns got = do
  limit ← common_height ns
  got' ← compare_blocks ns (limit + 1) 0 got
  set_verdict got' (expected_failures ns)

-- Check
unfoldable pub check_hashes : List Peer → Result HashError (Unit {0})
check_hashes ns = dial ns >>= (λ got. if all_expected ns then ok tt else check_blocks ns got)
