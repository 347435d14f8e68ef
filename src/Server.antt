-- ===== src/Server.antt =====
-- internal/server: the gRPC handlers over the state store.
pub mod Status
pub mod Wire
pub mod Resources
pub mod Selector
pub mod Projects
pub mod Workflows
pub mod System
pub mod Dispatch
