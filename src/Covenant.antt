-- ===== src/Covenant.antt =====
-- packages/covenant: the parameters of the dust covenant.
pub mod Params
mod Tests
