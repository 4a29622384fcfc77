-- ===== src/Cluster.antt =====
-- The API server as the controller and the webhook reach it through `client.Client`
-- (sigs.k8s.io/controller-runtime), and client-go's `retry.RetryOnConflict`. Neither is code of
-- this repository, so both are a parameter of the model. A read leaves the cluster alone.
pub mod Laws
pub mod Memory
pub use Defs.*
mod Defs
