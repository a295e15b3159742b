-- ===== src/Infra.antt =====
-- src/infra: the shared constants and settings.
pub mod Topics
pub mod Dotenv
pub mod Config
pub mod Env
mod Tests
