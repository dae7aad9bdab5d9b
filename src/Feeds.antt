-- ===== src/Feeds.antt =====
-- dashboard/src: the alerts that the dashboard shows, and the texts of failed requests.
pub mod FetchError
pub mod Alerts
