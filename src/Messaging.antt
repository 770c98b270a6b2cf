-- ===== src/Messaging.antt =====
-- packages/messaging/src/batch.ts: what a handler decides about one record of a batch.
pub mod Publisher
pub mod Batch
pub mod Parse

-- Only `retry` leaves the message on the queue.
pub data RecordOutcome : Type 0 where
  done retry : RecordOutcome
