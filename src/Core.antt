-- ===== src/Core.antt =====
-- crates/wrix-core/src: workspace identities and the text types that cross process boundaries.
pub mod Workspace
pub mod Quantity
mod Tests
