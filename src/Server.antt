-- ===== src/Server.antt =====
-- src/server: the parameters, the guard, the two message queries, and the registration of accounts.
pub mod Params
pub mod Auth
pub mod Fetch
pub mod Members
pub mod Sessions
pub mod Stream
pub mod Messages
pub mod Pull
pub mod Registry
