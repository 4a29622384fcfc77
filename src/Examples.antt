-- ===== src/Examples.antt =====
-- Concrete objects and what the theorems say of them.
pub mod Objects
pub mod ControllerRuns
pub mod WebhookRuns
pub mod Certificates
pub mod Configurations
pub mod Directories
pub mod SetRuns
pub mod Servers
pub mod Packages
pub mod Syncs
pub mod Races
pub mod Folders
pub mod Ports
pub mod Probes
pub mod Starts
