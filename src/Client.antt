-- ===== src/Client.antt =====
-- core/src/client: the background task of the asynchronous client and what its front end asks of it.
pub mod Manager
pub mod World
pub mod Helpers
pub mod SingleResponse
pub mod Frontend
pub mod Backend
pub mod Safety
pub mod Tasks
pub mod Subscription
pub mod Ids
pub mod Calls
pub mod Transport
pub mod Http
pub mod Service
pub mod Params
mod Fixtures
mod Tests
