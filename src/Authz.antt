-- ===== src/Authz.antt =====
-- packages/authz: relation tuples, the rewrite rules over them, and share tokens.
pub mod Types
pub mod Rules
pub mod Tuples
pub mod Shares
mod Tests
