-- ===== src/Planner.antt =====
-- The image layer planner, crates/wrix-image-tools/src/planner.
pub mod Petgraph
pub mod ListGraph
pub mod Graph
pub mod Score
pub mod Pipeline
pub mod Plan
pub mod Auto
mod Tests
