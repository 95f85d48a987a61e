-- ===== src/Database.antt =====
-- packages/db: the stores, as tables of rows with the statements that change them.
pub mod Rows
pub mod Keyed
pub mod Records
pub mod Custody
pub mod Advances
pub mod Reservations
pub mod Proceeds
pub mod Fills
pub mod Writers
mod Tests
