-- ===== src/Genesis.antt =====
-- genesis: the patches of network rules.
pub mod RulesPatch
