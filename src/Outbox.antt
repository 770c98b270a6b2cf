-- ===== src/Outbox.antt =====
-- apps/outbox-publisher: events of the outbox are put on their queues.
pub mod Handler
pub mod Delivery
pub mod Safety
