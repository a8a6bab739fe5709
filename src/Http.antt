-- ===== src/Http.antt =====
-- internal/http: the handlers, what they answer on an error, and the routes.
pub mod Response
pub mod Mapper
pub mod Handlers
pub mod Router
pub mod Answers
pub mod Middleware
pub mod Keeping
