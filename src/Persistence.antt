-- ===== src/Persistence.antt =====
-- packages/persistence/src: the table, its keys, and the repository.
pub mod Keys
pub mod Items
pub mod Failures
pub mod Dynamo
