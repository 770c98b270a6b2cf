-- ===== src/Repository/Commit/Reads.antt =====
-- What each accepted write of Writes leaves at each kind of key.
use api_proxy.Base.{ℕ, ◌≡◌, ◌&&◌, Text, text_eq, text_eq→eq, Option, some, arith, if◌then◌else◌}
use api_proxy.Contracts.Ids.{Platform}
use api_proxy.Contracts.Workflow.{StepId}
use api_proxy.Contracts.Messages.{OutboxDestination}
use api_proxy.Persistence.Keys.{workflow_key, step_key, outbox_key, idempotency_key_item, same_key}
use api_proxy.Persistence.Keys.Apart.{apart, same_step}
use api_proxy.Persistence.Items.{workflow_item, outbox_item, idempotency_item}
use api_proxy.Persistence.Dynamo.{Table, perform, perform_all}
use api_proxy.Repository.{RepositoryOptions, CreateWorkflowInput, AdvanceParams, TerminalParams}
use api_proxy.Repository.Writes.{
  create_writes, begin_write, mark_unknown_write, advance_writes, terminal_writes, publish_write,
  new_workflow, new_event, new_mapping, event_id_for, first_message, next_message, upsert_step,
  update_workflow, update_outbox, claimed, finished, finished_step, marked_unknown, step_succeeded,
  published,
}

module _ (platform : Platform) (options : RepositoryOptions) (t : Table) where
  module _ (input : CreateWorkflowInput) (now : ℕ) where
    abbrev pub after_create : Table
    after_create = perform_all (create_writes platform options input now) t

    pub create-workflow :
        (r : Text)
        → after_create (workflow_key r) ≡ (
            if text_eq input.request_id r
            then some (workflow_item (new_workflow platform options input now))
            else t (workflow_key r))
    unfolding create_writes
    create-workflow r = simp apart

    pub create-step : (r : Text) (s : StepId) → after_create (step_key r s) ≡ t (step_key r s)
    unfolding create_writes
    create-step r s = simp apart

    pub create-outbox :
        (r e : Text)
        → after_create (outbox_key r e) ≡ (
            if text_eq input.request_id r
              && text_eq (event_id_for platform options input.request_id StepId.enrich) e
            then some (
                outbox_item (
                  new_event platform options input.request_id OutboxDestination.start_queue
                    (first_message platform options input now)
                    now))
            else t (outbox_key r e))
    unfolding create_writes
    create-outbox r e = simp apart

    pub create-mapping :
        (c k : Text)
        → after_create (idempotency_key_item c k) ≡ (
            if same_key
              (idempotency_key_item input.tenant_id input.idempotency_key)
              (idempotency_key_item c k)
            then some (idempotency_item (new_mapping platform options input now))
            else t (idempotency_key_item c k))
    unfolding create_writes
    create-mapping c k = simp apart

  module _ (q : Text) (z : StepId) (ref : Option Text) (now : ℕ) where
    abbrev pub after_begin : Table
    after_begin = perform (begin_write platform options q z ref now) t

    pub begin-workflow : (r : Text) → after_begin (workflow_key r) ≡ t (workflow_key r)
    unfolding begin_write
    begin-workflow r = simp apart

    pub begin-step :
        (r : Text) (s : StepId)
        → after_begin (step_key r s) ≡ (
            if text_eq q r && same_step z s
            then upsert_step (claimed platform options q z ref now) (t (step_key q z))
            else t (step_key r s))
    unfolding begin_write
    begin-step r s = simp apart

    pub begin-outbox : (r e : Text) → after_begin (outbox_key r e) ≡ t (outbox_key r e)
    unfolding begin_write
    begin-outbox r e = simp apart

    pub begin-mapping :
        (c k : Text) → after_begin (idempotency_key_item c k) ≡ t (idempotency_key_item c k)
    unfolding begin_write
    begin-mapping c k = simp apart

  module _ (q : Text) (z : StepId) (now : ℕ) where
    abbrev pub after_mark : Table
    after_mark = perform (mark_unknown_write platform options q z now) t

    pub mark-workflow : (r : Text) → after_mark (workflow_key r) ≡ t (workflow_key r)
    unfolding mark_unknown_write
    mark-workflow r = simp apart

    pub mark-step :
        (r : Text) (s : StepId)
        → after_mark (step_key r s) ≡ (
            if text_eq q r && same_step z s
            then upsert_step (marked_unknown now) (t (step_key q z))
            else t (step_key r s))
    unfolding mark_unknown_write
    mark-step r s = simp apart

    pub mark-outbox : (r e : Text) → after_mark (outbox_key r e) ≡ t (outbox_key r e)
    unfolding mark_unknown_write
    mark-outbox r e = simp apart

    pub mark-mapping :
        (c k : Text) → after_mark (idempotency_key_item c k) ≡ t (idempotency_key_item c k)
    unfolding mark_unknown_write
    mark-mapping c k = simp apart

  module _ (p : AdvanceParams) (now : ℕ) where
    abbrev pub after_advance : Table
    after_advance = perform_all (advance_writes platform options p now) t

    pub advance-workflow : (r : Text) → after_advance (workflow_key r) ≡ t (workflow_key r)
    unfolding advance_writes
    advance-workflow r = simp apart (ground (arith, text_eq→eq p.request_id r))

    pub advance-step :
        (r : Text) (s : StepId)
        → after_advance (step_key r s) ≡ (
            if text_eq p.request_id r && same_step p.step_id s
            then upsert_step
                (step_succeeded p.step_result now)
                (t (step_key p.request_id p.step_id))
            else t (step_key r s))
    unfolding advance_writes
    advance-step r s = simp apart

    pub advance-outbox :
        (r e : Text)
        → after_advance (outbox_key r e) ≡ (
            if text_eq p.request_id r
              && text_eq (event_id_for platform options p.request_id p.next_step) e
            then some (
                outbox_item (
                  new_event platform options p.request_id p.destination
                    (next_message platform options p now)
                    now))
            else t (outbox_key r e))
    unfolding advance_writes
    advance-outbox r e = simp apart

    pub advance-mapping :
        (c k : Text) → after_advance (idempotency_key_item c k) ≡ t (idempotency_key_item c k)
    unfolding advance_writes
    advance-mapping c k = simp apart

  module _ (p : TerminalParams) (now : ℕ) where
    abbrev pub after_finish : Table
    after_finish = perform_all (terminal_writes platform options p now) t

    pub finish-workflow :
        (r : Text)
        → after_finish (workflow_key r) ≡ (
            if text_eq p.request_id r
            then update_workflow
                (finished platform options p.outcome now)
                (t (workflow_key p.request_id))
            else t (workflow_key r))
    unfolding terminal_writes
    finish-workflow r = simp apart

    pub finish-step :
        (r : Text) (s : StepId)
        → after_finish (step_key r s) ≡ (
            if text_eq p.request_id r && same_step p.step_id s
            then upsert_step
                (finished_step platform options p now)
                (t (step_key p.request_id p.step_id))
            else t (step_key r s))
    unfolding terminal_writes
    finish-step r s = simp apart

    pub finish-outbox : (r e : Text) → after_finish (outbox_key r e) ≡ t (outbox_key r e)
    unfolding terminal_writes
    finish-outbox r e = simp apart

    pub finish-mapping :
        (c k : Text) → after_finish (idempotency_key_item c k) ≡ t (idempotency_key_item c k)
    unfolding terminal_writes
    finish-mapping c k = simp apart

  module _ (q f : Text) (now : ℕ) where
    abbrev pub after_publish : Table
    after_publish = perform (publish_write platform options q f now) t

    pub publish-workflow : (r : Text) → after_publish (workflow_key r) ≡ t (workflow_key r)
    unfolding publish_write
    publish-workflow r = simp apart

    pub publish-step : (r : Text) (s : StepId) → after_publish (step_key r s) ≡ t (step_key r s)
    unfolding publish_write
    publish-step r s = simp apart

    pub publish-outbox :
        (r e : Text)
        → after_publish (outbox_key r e) ≡ (
            if text_eq q r && text_eq f e
            then update_outbox (published now) (t (outbox_key q f))
            else t (outbox_key r e))
    unfolding publish_write
    publish-outbox r e = simp apart

    pub publish-mapping :
        (c k : Text) → after_publish (idempotency_key_item c k) ≡ t (idempotency_key_item c k)
    unfolding publish_write
    publish-mapping c k = simp apart
