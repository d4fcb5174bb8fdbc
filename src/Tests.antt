-- ===== src/Tests.antt =====
-- Each theorem that has hypotheses, applied where they hold.
mod Xml
mod Wire
mod Routing
mod Requests
mod Select
mod Start
mod Started
mod Rapl
mod Sending
mod Objects
mod Clients
mod Context
mod Dist
mod Server
