-- ===== src/Server.antt =====
-- src/server: the parts of the broker behind the request handler.
pub mod Acl
pub mod Transaction
pub mod Share
