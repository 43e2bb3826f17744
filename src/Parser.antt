-- ===== src/Parser.antt =====
-- internal/parser: release titles and what is read from them.
pub mod Types
pub mod Patterns
pub mod Quality
pub mod Title
