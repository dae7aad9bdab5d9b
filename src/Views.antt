-- ===== src/Views.antt =====
-- dashboard/src/app/api/visibility/docker: the routes that show the services.
pub mod Table
pub mod Inspect
pub mod State
pub mod Scheduling
pub mod Agreement
