-- ===== src/Api.antt =====
-- The client of the server's routes: web/src/api/client.ts.
pub mod Records
pub mod Requests
pub mod Guarded
pub mod Transport
pub mod PartRequest
pub mod Settling
mod Tests
