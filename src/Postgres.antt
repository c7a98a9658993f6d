-- ===== src/Postgres.antt =====
-- pkg/postgres: the data, the statements, the transactor and the stores of streams and certificates.
pub mod Types
pub mod Tables
pub mod Statements
pub mod Transactor
pub mod Rows
pub mod Token
pub mod Streams
pub mod Certificates
pub mod Migrate
pub mod Monitoring
mod Tests
