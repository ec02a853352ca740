-- ===== src/Tests.antt =====
-- Runs of the model at concrete inputs, and the theorems at inputs that meet their hypotheses.
pub mod SeriesTests
pub mod BlocksTests
pub mod TrackerTests
pub mod EmissionsTests
pub mod HeightsTests
pub mod HashesTests
pub mod ValidatorsTests
pub mod ConfigurationTests
pub mod GasRateTests
pub mod RulesTests
pub mod ThrottlingTests
pub mod StakesTests
pub mod RunTests
pub mod LoadTests
pub mod ShapesTests
pub mod ActivationTests
pub mod InclusionsTests
pub mod LifecycleTests
pub mod ParserTests
pub mod NodesTests
pub mod LocalTests
