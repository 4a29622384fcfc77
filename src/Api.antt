-- ===== src/Api.antt =====
-- The objects that the program stores and reads.
mod Kube
mod Types
pub mod Equal
pub use Kube.*
pub use Types.*
