-- ===== src/Proxy.antt =====
-- dashboard/src/app/api/visibility/docker/chaos/watchdog: the routes that pass the watchdog's payload on.
pub mod Normalize
pub mod Status
pub mod Laws
