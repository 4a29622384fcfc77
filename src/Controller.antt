-- ===== src/Controller.antt =====
-- The controller: internal/controller/apps.
pub mod Events
pub mod Reservations
pub mod Save
pub mod Vmi
pub mod Sets
pub mod Reconcile
