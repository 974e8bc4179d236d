-- ===== src/Server.antt =====
-- The HTTP server of server/server.go: `Types` has its state, requests and responses, `Handlers` the
-- handlers, `Middleware` the rate limit, the bearer token and the table of routes, `Run` the server at
-- work, and `Build` how
-- a server is made.
pub mod Types
pub mod Build
pub mod Handlers
pub mod Middleware
pub mod Access
pub mod Limited
pub mod Answers
pub mod Run
mod Tests
