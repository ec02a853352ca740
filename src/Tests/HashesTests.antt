-- ===== src/Tests/HashesTests.antt =====
-- The block hash check at concrete nodes.
use norma.Base.{
  ℕ, ◌≡◌, ◌≤◌, ◌⊎◌, refl, Bool, true, false, some, List, [], ◌∷◌, String, All, Some, ltb,
  if◌then◌else◌,
}
use norma.Base.Results.{ok, err}
use norma.Checking.Hashes.{
  BlockHashes, found, Peer, differs, dial, distinct, all_expected, healthy, height_from,
  common_height, compare_from, compare_healthy_nodes, record_failing_nodes, compare_blocks,
  check_blocks, check_hashes,
}
use norma.Checking.Hashes.Consistency.{Agree, IsHealthy, Reaches, check_hashes-Agree}

-- The hashes of a chain that forks off at a block.
abbrev chain : ℕ → ℕ → BlockHashes
chain fork b = record { hash = if ltb b fork then b else 77; state_root = b; receipts_root = b }

abbrev peer : String → Bool → ℕ → ℕ → Peer
peer label failing height fork = record {
  label = label;
  expected_failure = failing;
  client = some (record { block_number = some height; block = λ b. found (chain fork b) });
}

abbrev honest : List Peer
honest = peer "A" false 4 9 ∷ peer "B" false 3 9 ∷ peer "C" true 9 2 ∷ []

honest_passes : check_hashes honest ≡ ok tt
unfolding check_hashes check_blocks dial distinct healthy height_from common_height compare_from
    compare_healthy_nodes record_failing_nodes compare_blocks
honest_passes = refl

forked_fails : check_hashes (peer "A" false 4 9 ∷ peer "B" false 3 2 ∷ []) ≡ err (differs 2 "B")
unfolding check_hashes check_blocks dial distinct healthy height_from common_height compare_from
    compare_healthy_nodes record_failing_nodes compare_blocks
forked_fails = refl

check_hashes-Agree_example :
    (all_expected honest ≡ true)
    ⊎ ((limit : ℕ) × (2 ≤ limit)
        × Some IsHealthy honest
        × All (Reaches limit) honest
        × ((b : ℕ) → b ≤ limit → Agree honest b))
check_hashes-Agree_example = check_hashes-Agree honest honest_passes
