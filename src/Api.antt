-- ===== src/Api.antt =====
-- The package `main` of api/: what the manager's clients see.
pub mod Env
pub mod Session
pub mod CreateVm
pub mod Socket
pub mod Messages
pub mod Handlers
pub mod Network
pub mod Routes
pub mod Logstream
pub mod Terminal
pub mod Websocket
pub mod Tests
