-- ===== src/Database.antt =====
-- migrations/*.sql: the tables as lists of rows. The serial number of an audit event is left out,
-- since no query of the program reads it; the newest event stands first.
pub mod Schema
pub mod Statements
pub mod Queries
