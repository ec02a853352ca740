-- ===== src/Checking.antt =====
-- driver/checking: the checks that a scenario runs against the network.
pub mod Timing
pub mod Blocks
pub mod Poll
pub mod Failures
pub mod Heights
pub mod GasRate
pub mod Hashes
pub mod Validators
pub mod Rules
pub mod Snapshots
pub mod Throttling
pub mod Configuration
