-- ===== src/Parser.antt =====
-- driver/parser: the scenario file, how its steps are read from YAML, and the check of what was
-- read.
pub mod Functions
pub mod Rates
pub mod Scenario
pub mod Names
pub mod Check
pub mod Yaml
pub mod CheckSpecs
pub mod Steps
