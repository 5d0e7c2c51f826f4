-- ===== src/Proxy.antt =====
-- The proxy service, which plans the routes of a request and tries them in turn:
-- crates/provider-core/src/proxy.
pub mod Errors
pub mod Execution
pub mod Linkage
mod Tests
