-- ===== src/Config.antt =====
-- internal/config: the reading of `.env` files.
pub mod Bytes
pub mod DotEnv
pub mod DotEnvBounds
pub mod PlainText
pub mod PlainLines
pub mod DotEnvRoundTrip
