-- ===== src/Setup.antt =====
-- setup-railway.js: the script that configures the services of the project on Railway.
pub mod EnvFile
pub mod Project
pub mod Client
pub mod Configure
pub mod Plugins
pub mod Wiring
pub mod Variables
pub mod IngestToken
pub mod Main
pub mod Ensures
pub mod Rules
pub mod Scope
pub mod Foreign
pub mod Patterns
pub mod Converges
pub mod References
pub mod Settled
pub mod Repository
