-- ===== src/Chaos.antt =====
-- dashboard/src/app/api/visibility/docker/chaos: the routes that kill and restart a service.
pub mod Guards
pub mod Kill
pub mod Restart
pub mod Config
pub mod Safety
