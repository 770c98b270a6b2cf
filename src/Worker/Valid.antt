-- ===== src/Worker/Valid.antt =====
-- The event that apps/worker-a stores, against the schemas of its readers.
use api_proxy.Base.{ℕ, suc, ◌≡◌, refl, true, Text, codes, ◌∷◌, ◌++◌, take, length-take, arith}
use api_proxy.Contracts.Ids.{Platform, length_within, hex64_schema}
use api_proxy.Contracts.Workflow.{positive, StepId}
use api_proxy.Contracts.Domain.{OperationKind, OperationInput}
use api_proxy.Contracts.Messages.{
  WorkflowMessage, enrichment_schema, payload_schema, workflow_message_schema, outbox_event_schema,
}
use api_proxy.Idempotency.{derive_event_id}
use api_proxy.Persistence.Items.{ttl_seconds_from_now}
use api_proxy.Repository.{RepositoryOptions}
use api_proxy.Repository.Writes.{next_message, new_event, event_id_for}
use api_proxy.Worker.Enrich.{CaseMapping, operation_name, normalize_reference, enrich}
use api_proxy.Worker.Handler.{advance_params}

capped : (n c : ℕ) (t : Text) → length_within 1 (suc n) (take (suc n) (c ∷ t)) ≡ true
capped n c t = ground (arith, length-take n t)

module _ (cases : CaseMapping) where
  normalized :
      (k : OperationKind) (t : Text)
      → length_within 1 80 (take 80 (cases.upper (operation_name k ++ t))) ≡ true
  normalized OperationKind.charge t =
      rw (cases.upper-ascii (67) (codes "HARGE" ++ t) refl)
        (capped 79 67 (cases.upper (codes "HARGE" ++ t)))
  normalized OperationKind.refund t =
      rw (cases.upper-ascii (82) (codes "EFUND" ++ t) refl)
        (capped 79 82 (cases.upper (codes "EFUND" ++ t)))

  -- The enrichment of every input meets its schema: upper-casing may lengthen the reference, but it
  -- is cut to 80 units and never empty.
  pub enrich-valid :
      (input : OperationInput) (at : ℕ)
      → positive at ≡ true
      → enrichment_schema (enrich cases input at) ≡ true
  unfolding enrichment_schema enrich normalize_reference
  enrich-valid input at h =
      ground (arith, normalized input.operation (codes ":" ++ input.reference))

module _ (platform : Platform) (options : RepositoryOptions) (cases : CaseMapping) where
  event_id-hex64 : (r : Text) (z : StepId) → hex64_schema (event_id_for platform options r z) ≡ true
  unfolding derive_event_id
  event_id-hex64 r z = platform.sha256_hex-hex64 _

  -- The event that worker A leaves for FINALIZE decodes: it meets the schema of the outbox, the
  -- message in it the schema of messages, and its payload the one of its step. Its ingredients are a
  -- valid message of ENRICH, clocks past zero, and a time to live of a day or more.
  pub advance_event-valid :
      (m : WorkflowMessage) (input : OperationInput) (at now : ℕ)
      → workflow_message_schema platform m ≡ true
      → positive at ≡ true
      → positive now ≡ true
      → positive options.outbox_ttl_days ≡ true
      → let p = advance_params m (enrich cases input at) in
        outbox_event_schema platform
          (new_event platform options p.request_id p.destination
            (next_message platform options p now)
            now).event
        ≡ true
  unfolding outbox_event_schema workflow_message_schema payload_schema new_event
      ttl_seconds_from_now
  advance_event-valid m input at now h a b c =
      ground (arith, event_id-hex64 m.request_id StepId.finalize, enrich-valid cases input at a)
