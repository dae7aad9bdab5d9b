-- ===== src/Visibility.antt =====
-- dashboard/src/lib/watchdog-core/railway-visibility.ts: the services of a Railway project and
-- their deployments, and the calls that stop, remove, restart and deploy them.
pub mod Status
pub mod Graphql
pub mod Rows
pub mod Halt
pub mod Agreement
