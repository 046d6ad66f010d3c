-- ===== src/Tests.antt =====
-- The theorems of the other modules at concrete servers, clients and requests.
pub mod Memory
pub mod Handlers
pub mod Objects
pub mod Pages
pub mod Tokens
pub mod Unary
pub mod Clients
pub mod Downloads
pub mod Sends
pub mod Rows
pub mod Scopes
pub mod Reprocessing
