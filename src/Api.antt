-- ===== src/Api.antt =====
-- apps/api: the credentials, the routes and their composition.
pub mod KeyStore
pub mod Problems
pub mod App
pub mod Composition
