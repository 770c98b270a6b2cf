-- ===== src/Reconciler.antt =====
-- apps/reconciler/src.
pub mod Handler
pub mod Republish
pub mod Sweep
