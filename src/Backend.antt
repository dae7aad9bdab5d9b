-- ===== src/Backend.antt =====
-- dashboard/src: the routes that forward a request to the FastAPI backend, to Prometheus or to the load
-- balancer, and the URL of the backend.
pub mod Url
pub mod Forward
pub mod Guarded
pub mod Plain
pub mod Laws
