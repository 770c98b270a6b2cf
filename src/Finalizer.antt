-- ===== src/Finalizer.antt =====
-- apps/finalizer: the step FINALIZE, its calls of the provider, and what is proved of them.
pub mod Provider
pub mod Handler
pub mod Safety
pub mod Reconcile
pub mod Acknowledged
