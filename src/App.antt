-- ===== src/App.antt =====
-- packages/app: what it writes to the store of the advances by itself.
pub mod Sweeper
