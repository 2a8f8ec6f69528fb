-- ===== src/Application.antt =====
-- internal/application: the use cases, over the ports that the adapters implement.
pub mod Ports
pub mod Calls
pub mod Files
pub mod Rotate
pub mod CheckCompliance
pub mod ScanSecrets
pub mod PlanRotation
