-- ===== src/Worker.antt =====
-- apps/worker-a: the step ENRICH, its handler, and what is proved of it.
pub mod Enrich
pub mod Handler
pub mod Safety
pub mod Acknowledged
pub mod Valid
