-- ===== src/Service.antt =====
-- crates/wrix-service/src: the shared service's controller.
pub mod Pool
pub mod Supervisor
pub mod Route
pub mod FrontDoor
pub mod Policy
pub mod Drain
pub mod Registry
pub mod Gateway
mod Tests
