-- ===== src/Api.antt =====
-- The parts of SuperAPI._server that the model covers.
pub mod Sse
pub mod Env
pub mod Tracing
pub mod Metrics
pub mod Middleware
pub mod Provider
mod Tests
