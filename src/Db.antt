-- ===== src/Db.antt =====
-- internal/db: the PostgreSQL metadata store. Each function runs one SQL statement, which is
-- translated to a function on the tables.
pub mod Schema
pub mod Packages
pub mod Listing
pub mod Audit
pub mod Rows
pub mod Lookup
pub mod Consistency
pub mod Expiry
pub mod Counting
pub mod Checksums
pub mod Connection
