-- ===== src/DecisionEngine.antt =====
-- internal/decisionengine: the specs of a release, and the ranking of those accepted.
pub mod Types
pub mod Engine
pub mod Specs
