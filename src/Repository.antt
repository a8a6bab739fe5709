-- ===== src/Repository.antt =====
-- internal/repository: the storage over PostgreSQL, as programs of a monad that holds the database
-- and may fail at every statement it sends.
pub mod Monad
pub mod Transaction
pub mod Triple
pub mod Calm
pub mod Teams
pub mod Users
pub mod PullRequests
pub mod Listings
pub mod Tx
pub mod Interface
