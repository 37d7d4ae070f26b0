-- ===== src/Tests.antt =====
-- Concrete runs: the theorems applied to small inputs.
mod Fixtures
mod Limits
mod Filters
mod Records
mod Requests
mod Feeds
mod KeyRows
mod Daemon
mod Boot
mod Wire
