-- ===== src/Repository/Outcomes.antt =====
-- What the answers of the repository's methods mean.
pub mod Decode
pub mod Get
pub mod Create
pub mod Existing
pub mod Stored
pub mod Post
pub mod Terminal
pub mod Claim
pub mod Advance
pub mod Timed
