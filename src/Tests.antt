-- ===== src/Tests.antt =====
-- Concrete runs: an in-memory table, and the theorems at inputs that meet their hypotheses.
mod Memory
mod Repository
mod Pipeline
mod Finalizer
mod Outbox
mod Batch
mod Keys
mod Lifecycle
mod Config
mod Fingerprint
mod KeyStore
mod Timed
mod Waiter
mod App
mod Reconciler
mod Parse
