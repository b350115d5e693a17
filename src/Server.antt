-- ===== src/Server.antt =====
-- The server: responses, the registered methods, and the service that answers requests.
pub mod Runtime
pub mod Response
pub mod Methods
pub mod Rpc
pub mod Calls
pub mod Body
pub mod Connections
pub mod Queue
pub mod Subscription
pub mod Websocket
pub mod Http
pub mod Proxy
pub mod Hosts
pub mod Tower
pub mod Module
pub mod Fixtures
mod Tests
