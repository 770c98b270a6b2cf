-- ===== src/Tests/Outbox.antt =====
-- The publisher at a small run: the first event of a charge goes to the start queue.
use api_proxy.Base.{
  ◌≡◌, refl, ◌⊎◌, inl, inr, codes, Text, text_eq, decimal, some, List, [], ◌∷◌, ok, try_catch, All,
}
use api_proxy.Contracts.Ids.{tenant_id_schema, is_tenant_char, hex64_schema, is_hex_char}
use api_proxy.Contracts.Messages.{
  WorkflowMessage, OutboxDestination, outbox_event_schema, workflow_message_schema, payload_schema,
}
use api_proxy.Idempotency.{derive_event_id, step_name}
use api_proxy.Messaging.Publisher.{Sqs, QueueUrls, publish, publish_to, queue_url}
use api_proxy.Persistence.Keys.{outbox_key, workflow_key, idempotency_key_item, same_key}
use api_proxy.Persistence.Items.{outbox_item, ttl_seconds_from_now}
use api_proxy.Persistence.Dynamo.{Table}
use api_proxy.Repository.Writes.{
  create_writes, new_event, new_workflow, new_mapping, first_message, event_id_for, publish_write,
  published,
}
use api_proxy.Contracts.Workflow.{StepId}
use api_proxy.Repository.Commit.{here}
use api_proxy.Repository.Service.{Service}
use api_proxy.Repository.Clock.{Clock}
use api_proxy.Repository.Methods.{mark_outbox_published}
use api_proxy.Outbox.Handler.{
  StreamRecord, handle_records, publish_record, publish_event, pending_event, image_event,
}
use api_proxy.Outbox.Delivery.{IsServed, handle_records-delivered}
use api_proxy.Tests.Memory.{
  platform, options, update, update_lem, transact, transact_lem, digest, checksum,
}
use api_proxy.Tests.Repository.{request}
use api_proxy.Tests.Pipeline.{charge, ready}

-- A table beside the messages that were sent.
abbrev pub Mail : Type 0
Mail = List (Text × WorkflowMessage)

abbrev pub office : Service platform options
office = record {
  World = Table × Mail;
  table = λ w. w.0;
  get = λ k w. (ok (w.0 k), w);
  update = λ x w. ((update x w.0).0, ((update x w.0).1, w.1));
  transact = λ xs w. ((transact xs w.0).0, ((transact xs w.0).1, w.1));
  get_lem = λ k w. (w.0, here, (refl, refl));
  update_lem = λ x w. (w.0, here, update_lem x w.0);
  transact_lem = λ xs w. (w.0, here, transact_lem xs w.0);
}

abbrev pub stopped_clock : Clock platform options office
stopped_clock = record { read = λ w. (2000, w); read_lem = λ w. here }

abbrev Contains : Mail → Text → WorkflowMessage → Type 0
Contains [] url m = ⊥
Contains ((v, n) ∷ rest) url m = ((v ≡ url) × (n ≡ m)) ⊎ Contains rest url m

abbrev pub post_office : Sqs platform options office stopped_clock
post_office = record {
  send = λ url m w. (ok tt, (w.0, (url, m) ∷ w.1));
  Sent = λ w url m. Contains w.1 url m;
  send_lem = λ url m w. here;
  send-Sent = λ url m w x h. inl (refl, refl);
  kept_by_send = λ url m w v n h. inr h;
  kept_by_update = λ x w v n h. h;
  kept_by_clock = λ w v n h. h;
}

abbrev pub urls : QueueUrls
urls = record { start_queue = some (codes "sqs:start"); step_queue = some (codes "sqs:step") }

abbrev first_event : StreamRecord
first_event = record {
  event_name = codes "INSERT";
  new_image = some (
    (outbox_key request (event_id_for platform options request StepId.enrich)).sk,
    outbox_item (
        new_event platform options request OutboxDestination.start_queue
          (first_message platform options charge 1000) 1000),
  );
  sequence_number = some (codes "1");
}

publish_answer :
    (handle_records office stopped_clock post_office urls (first_event ∷ []) (ready, [])).0 ≡ ok []
unfolding handle_records publish_record publish_event pending_event image_event publish publish_to
    queue_url mark_outbox_published publish_write published update try_catch create_writes new_event
    new_workflow new_mapping outbox_event_schema workflow_message_schema payload_schema
    tenant_id_schema is_tenant_char hex64_schema is_hex_char ttl_seconds_from_now same_key
    idempotency_key_item workflow_key outbox_key text_eq derive_event_id step_name digest checksum
    decimal
publish_answer = refl

handle_records-delivered_example :
    All
      (IsServed office stopped_clock post_office urls
        (handle_records office stopped_clock post_office urls (first_event ∷ []) (ready, [])).1)
      (first_event ∷ [])
handle_records-delivered_example =
    handle_records-delivered office stopped_clock post_office urls (first_event ∷ []) (ready, [])
      (refl, tt) publish_answer
