-- ===== src/Repository/Writes.antt =====
-- The requests that the methods of workflow-repository.ts send: keys, conditions, effects.
use api_proxy.Base.{
  ℕ, ◌+◌, Bool, true, false, not, ◌&&◌, ◌||◌, Text, Option, none, some, List, [], ◌∷◌,
  if_not_exists, or_else, is_some,
}
use api_proxy.Contracts.Ids.{Platform}
use api_proxy.Contracts.Json.{Json}
use api_proxy.Contracts.Workflow.{
  WorkflowStatus, StepId, StepStatus, is_processing, is_succeeded, current_workflow_version,
}
use api_proxy.Contracts.Messages.{WorkflowMessage, OutboxDestination, enrich_payload}
use api_proxy.Idempotency.{derive_event_id, step_name}
use api_proxy.Persistence.Keys.{
  workflow_key, step_key, outbox_key, idempotency_key_item, processing_index_keys,
  pending_outbox_index_keys,
}
use api_proxy.Persistence.Items.{
  Item, workflow_item, step_item, outbox_item, idempotency_item, WorkflowItem, StepItem, OutboxItem,
  IdempotencyItem, no_attributes, ttl_seconds_from_now,
}
use api_proxy.Persistence.Dynamo.{Write}
use api_proxy.Repository.{
  RepositoryOptions, CreateWorkflowInput, AdvanceParams, TerminalParams, TerminalOutcome,
  completed_with, failed_with,
}

-- `attribute_exists(pk) AND #status = :processing`
abbrev pub in_flight : Option Item → Bool
in_flight (some (workflow_item i)) = is_processing i.document.status
in_flight _ = false

-- `#status <> :succeeded`; a missing attribute differs from every value.
abbrev pub not_succeeded : Option Item → Bool
not_succeeded (some (step_item i)) = elim i.status [ none ↦ true | some s ↦ not (is_succeeded s) ]
not_succeeded _ = true

-- The item that a `Put` stores, whatever was there.
abbrev pub put : Item → Option Item → Option Item
put item old = some item

-- `UpdateItem` on a step item creates a missing one. The keys of steps hold nothing else.
abbrev pub upsert_step : (StepItem → StepItem) → Option Item → Option Item
upsert_step f none = some (step_item (f no_attributes))
upsert_step f (some (step_item i)) = some (step_item (f i))
upsert_step f (some (workflow_item i)) = some (workflow_item i)
upsert_step f (some (idempotency_item i)) = some (idempotency_item i)
upsert_step f (some (outbox_item i)) = some (outbox_item i)

-- The condition of a workflow update implies that the item is there.
abbrev pub update_workflow : (WorkflowItem → WorkflowItem) → Option Item → Option Item
update_workflow f (some (workflow_item i)) = some (workflow_item (f i))
update_workflow f old = old

abbrev pub update_outbox : (OutboxItem → OutboxItem) → Option Item → Option Item
update_outbox f (some (outbox_item i)) = some (outbox_item (f i))
update_outbox f old = old

abbrev pub absent : Option Item → Bool
absent old = not (is_some old)

abbrev pub unchanged : Option Item → Option Item
unchanged old = old

-- SET #status = :unknown, updatedAt = :now
unfoldable pub marked_unknown : ℕ → StepItem → StepItem
marked_unknown now i = record i {
  status = some StepStatus.unknown_external_state;
  updated_at = some now;
}

-- SET #status = :succeeded, updatedAt = :now, externalResult = :result
unfoldable pub step_succeeded : Json → ℕ → StepItem → StepItem
step_succeeded step_result now i = record i {
  status = some StepStatus.succeeded;
  updated_at = some now;
  external_result = some step_result;
}

-- SET publishedAt = :now REMOVE gsi1pk, gsi1sk
unfoldable pub published : ℕ → OutboxItem → OutboxItem
published now i = record { event = record (i.event) { published_at = some now }; gsi1 = none }

module _ (platform : Platform) (options : RepositoryOptions) where
  unfoldable pub new_workflow : CreateWorkflowInput → ℕ → WorkflowItem
  new_workflow input now = record {
    document = record {
      request_id = input.request_id;
      tenant_id = input.tenant_id;
      idempotency_key = input.idempotency_key;
      status = WorkflowStatus.processing;
      workflow_version = current_workflow_version;
      state_version = 0;
      payload_hash = input.payload_hash;
      input = input.input;
      created_at = now;
      updated_at = now;
      sync_deadline_at = some input.sync_deadline_at;
      business_deadline_at = some input.business_deadline_at;
      result = none;
      error = none;
      expires_at = some (ttl_seconds_from_now now options.workflow_ttl_days);
    };
    gsi2 = some (processing_index_keys input.request_id input.business_deadline_at);
  }

  unfoldable pub new_event : Text → OutboxDestination → WorkflowMessage → ℕ → OutboxItem
  new_event request_id destination message now = record {
    event = record {
      event_id = message.message_id;
      request_id = request_id;
      destination = destination;
      message = message;
      created_at = now;
      published_at = none;
      expires_at = some (ttl_seconds_from_now now options.outbox_ttl_days);
    };
    gsi1 = some (pending_outbox_index_keys request_id message.message_id now);
  }

  abbrev pub event_id_for : Text → StepId → Text
  event_id_for request_id step =
      derive_event_id platform request_id (step_name step) current_workflow_version

  abbrev pub first_message : CreateWorkflowInput → ℕ → WorkflowMessage
  first_message input now = record {
    message_id = event_id_for input.request_id StepId.enrich;
    request_id = input.request_id;
    tenant_id = input.tenant_id;
    workflow_version = current_workflow_version;
    created_at = now;
    step = StepId.enrich;
    payload = enrich_payload;
  }

  unfoldable pub new_mapping : CreateWorkflowInput → ℕ → IdempotencyItem
  new_mapping input now = record {
    tenant_id = input.tenant_id;
    idempotency_key = input.idempotency_key;
    request_id = input.request_id;
    payload_hash = input.payload_hash;
    created_at = now;
    expires_at = ttl_seconds_from_now now options.workflow_ttl_days;
  }

  unfoldable pub create_writes : CreateWorkflowInput → ℕ → List Write
  create_writes input now =
      record {
        key = idempotency_key_item input.tenant_id input.idempotency_key;
        condition = absent;
        effect = put (idempotency_item (new_mapping input now));
      }
      ∷ record {
        key = workflow_key input.request_id;
        condition = absent;
        effect = put (workflow_item (new_workflow input now));
      }
      ∷ record {
        key = outbox_key input.request_id (event_id_for input.request_id StepId.enrich);
        condition = absent;
        effect = put (
            outbox_item (
              new_event input.request_id OutboxDestination.start_queue (first_message input now)
                now));
      }
      ∷ []

  unfoldable pub claimed : Text → StepId → Option Text → ℕ → StepItem → StepItem
  claimed request_id step_id external_ref now i = record i {
    request_id = some request_id;
    step_id = some step_id;
    status = some StepStatus.in_progress;
    updated_at = some now;
    created_at = if_not_exists i.created_at now;
    expires_at = if_not_exists i.expires_at (ttl_seconds_from_now now options.workflow_ttl_days);
    external_ref = elim external_ref [
      | none ↦ i.external_ref
      | some e ↦ if_not_exists i.external_ref e
    ];
    attempt = some (or_else i.attempt 0 + 1);
  }

  unfoldable pub begin_write : Text → StepId → Option Text → ℕ → Write
  begin_write request_id step_id external_ref now = record {
    key = step_key request_id step_id;
    condition = λ old. absent old || not_succeeded old;
    effect = upsert_step (claimed request_id step_id external_ref now);
  }

  unfoldable pub mark_unknown_write : Text → StepId → ℕ → Write
  mark_unknown_write request_id step_id now = record {
    key = step_key request_id step_id;
    condition = λ old. is_some old && not_succeeded old;
    effect = upsert_step (marked_unknown now);
  }

  abbrev pub next_message : AdvanceParams → ℕ → WorkflowMessage
  next_message params now = record {
    message_id = event_id_for params.request_id params.next_step;
    request_id = params.request_id;
    tenant_id = params.tenant_id;
    workflow_version = current_workflow_version;
    created_at = now;
    step = params.next_step;
    payload = params.next_payload;
  }

  unfoldable pub advance_writes : AdvanceParams → ℕ → List Write
  advance_writes params now =
      record { key = workflow_key params.request_id; condition = in_flight; effect = unchanged }
      ∷ record {
        key = step_key params.request_id params.step_id;
        condition = not_succeeded;
        effect = upsert_step (step_succeeded params.step_result now);
      }
      ∷ record {
        key = outbox_key params.request_id (event_id_for params.request_id params.next_step);
        condition = absent;
        effect = put (
            outbox_item
              (new_event params.request_id params.destination (next_message params now) now));
      }
      ∷ []

  unfoldable pub finished : TerminalOutcome → ℕ → WorkflowItem → WorkflowItem
  finished (completed_with result) now i = record i {
    document = record (i.document) {
      status = WorkflowStatus.completed;
      updated_at = now;
      state_version = i.document.state_version + 1;
      result = some result;
    };
    gsi2 = none;
  }
  finished (failed_with error) now i = record i {
    document = record (i.document) {
      status = WorkflowStatus.failed;
      updated_at = now;
      state_version = i.document.state_version + 1;
      error = some error;
    };
    gsi2 = none;
  }

  abbrev pub step_status_for : TerminalOutcome → StepStatus
  step_status_for (completed_with result) = StepStatus.succeeded
  step_status_for (failed_with error) = StepStatus.failed

  unfoldable pub finished_step : TerminalParams → ℕ → StepItem → StepItem
  finished_step params now i = record i {
    status = some (step_status_for params.outcome);
    updated_at = some now;
    request_id = some params.request_id;
    step_id = some params.step_id;
    created_at = if_not_exists i.created_at now;
    attempt = if_not_exists i.attempt 0;
    expires_at = if_not_exists i.expires_at (ttl_seconds_from_now now options.workflow_ttl_days);
  }

  unfoldable pub terminal_writes : TerminalParams → ℕ → List Write
  terminal_writes params now =
      record {
        key = workflow_key params.request_id;
        condition = in_flight;
        effect = update_workflow (finished params.outcome now);
      }
      ∷ record {
        key = step_key params.request_id params.step_id;
        condition = λ old. true;
        effect = upsert_step (finished_step params now);
      }
      ∷ []

  unfoldable pub publish_write : Text → Text → ℕ → Write
  publish_write request_id event_id now = record {
    key = outbox_key request_id event_id;
    condition = is_some;
    effect = update_outbox (published now);
  }
