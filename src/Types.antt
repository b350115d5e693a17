-- ===== src/Types.antt =====
-- types/src: the JSON-RPC objects that the client and the server share.
pub mod Result
pub mod Ids
pub mod Error
pub mod Response
pub mod Method
pub mod Params
mod Tests
