-- ===== src/App.antt =====
-- internal/app/app.go and cmd/run/main.go: how the service starts and how it ends. The migrations,
-- the connection pool, the files, the signals and the HTTP server are the system's and third-party
-- packages', and so parameters.
pub mod Connect
pub mod Logger
pub mod Start
