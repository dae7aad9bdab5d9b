-- ===== src/Tests.antt =====
-- The theorems at concrete inputs that meet their hypotheses, and the data that these share.
mod Fixtures
mod Tick
mod Lifecycle
mod Chaos
mod Environment
mod Views
mod Proxy
mod Feeds
mod Setup
mod Backend
mod Settled
