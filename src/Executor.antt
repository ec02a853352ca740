-- ===== src/Executor.antt =====
-- driver/executor: the steps of a scenario, run one after the other against a network.
pub mod State
pub mod Delegations
pub mod Run
pub mod Checks
pub mod Names
pub mod Nodes
pub mod Stops
pub mod Recorded
pub mod Identity
pub mod Activation
