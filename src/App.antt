-- ===== src/App.antt =====
-- backend/internal/app and backend/internal/server: how the parts are put together, the routes of the
-- API, and the server from its start to its end, with the command that runs it.
pub mod Routes
pub mod Server
pub mod Database
pub mod Start
pub mod Command
