-- ===== src/Tick.antt =====
-- dashboard/src/lib/watchdog-core/railway-watchdog-tick.ts: one tick of the Railway watchdog.
pub mod State
pub mod Settings
pub mod Status
pub mod Redeem
pub mod Misses
pub mod Probe
pub mod AutoRecover
pub mod Transitions
pub mod Run
pub mod Memory
pub mod Bounds
pub mod Requests
pub mod Budget
pub mod Balance
pub mod Apart
pub mod Redeployments
pub mod Cooldown
pub mod Accounting
pub mod Events
pub mod Quiet
pub mod Outsiders
pub mod Scheduled
pub mod ExitRedeploy
