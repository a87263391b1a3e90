-- ===== src/Store.antt =====
-- gateway/internal/store: the repository on PostgreSQL that the pipeline, the credential manager and the
-- handlers use. Each method is one statement on the tables and the conversion of its rows.
pub mod Convert
pub mod Tables
pub mod Orders
pub mod Positions
pub mod Instruments
pub mod Venues
pub mod Rows
pub mod Driver
pub mod Tests
pub mod Saved
pub mod Replayed
