-- ===== src/Router.antt =====
-- tools/pwrdaemon/router: the daemon that carries requests from clients to servers, and responses
-- back.
pub mod Clients
pub mod Select
pub mod Core
pub mod Args
pub mod Collect
pub mod Ids
pub mod Send
pub mod Table
pub mod Tree
