-- ===== src/Load.antt =====
-- The load on the network: load/controller/controller.go and load/shaper.
pub mod Connections
pub mod Shapes
