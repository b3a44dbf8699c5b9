-- ===== src/Protocol/Primitives.antt =====
-- The data of crates/liz-protocol/src/primitives.rs.

pub data RiskLevel : Type 0 where
  low medium high critical : RiskLevel
