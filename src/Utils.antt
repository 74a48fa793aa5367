-- ===== src/Utils.antt =====
-- The pure helpers of the web client (frontend/src/utils).
pub mod Tags
pub mod Uptime
pub mod Csv
pub mod Semver
mod Tests
