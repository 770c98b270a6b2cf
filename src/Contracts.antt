-- ===== src/Contracts.antt =====
-- packages/contracts/src: the vocabulary that every component shares.
pub mod Errors
pub mod Ids
pub mod Json
pub mod Workflow
pub mod Domain
pub mod Messages
pub mod Http
