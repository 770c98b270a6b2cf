-- ===== src/Repository/Outcomes/Create.antt =====
-- The answers of createWorkflow.
use api_proxy.Base.{
  ℕ, ◌≡◌, refl, Bool, true, false, text_eq_refl, some, Result, ok, err, pure, throw, lift,
  try_catch, resume, arith,
}
use api_proxy.Contracts.Errors.{Thrown}
use api_proxy.Contracts.Ids.{Platform}
use api_proxy.Contracts.Workflow.{WorkflowRecord, StepId}
use api_proxy.Contracts.Messages.{OutboxDestination}
use api_proxy.Persistence.Keys.{workflow_key, outbox_key, idempotency_key_item}
use api_proxy.Persistence.Keys.Apart.{same_key_refl}
use api_proxy.Persistence.Items.{workflow_item, outbox_item, idempotency_item, decode_workflow}
use api_proxy.Persistence.Dynamo.{Table, Transacts, perform_all}
use api_proxy.Repository.{RepositoryOptions, CreateWorkflowInput, CreateWorkflowResult, created}
use api_proxy.Repository.Writes.{
  create_writes, new_workflow, new_mapping, new_event, event_id_for, first_message,
}
use api_proxy.Repository.Commit.Reads.{create-workflow, create-outbox, create-mapping}
use api_proxy.Repository.Service.{Service}
use api_proxy.Repository.Methods.{
  create_failed, create_workflow, resolve_existing_workflow, resolve_mapping, rethrow, or_throw,
}
use api_proxy.Repository.Outcomes.Decode.{decode_workflow_ok}

module _ (platform : Platform) (options : RepositoryOptions) (s : Service platform options) where
  -- The mapping, the workflow in flight and its first, pending event.
  abbrev pub Stores : CreateWorkflowInput → ℕ → Table → Type 0
  Stores input now t =
      (t (idempotency_key_item input.tenant_id input.idempotency_key)
        ≡ some (idempotency_item (new_mapping platform options input now)))
      × (t (workflow_key input.request_id)
          ≡ some (workflow_item (new_workflow platform options input now)))
      × (t (
            outbox_key input.request_id
              (event_id_for platform options input.request_id StepId.enrich))
          ≡ some (
              outbox_item (
                new_event platform options input.request_id OutboxDestination.start_queue
                  (first_message platform options input now) now)))

  pub create_writes-Stores :
      (input : CreateWorkflowInput) (now : ℕ) (t : Table)
      → Stores input now (perform_all (create_writes platform options input now) t)
  create_writes-Stores input now t = (
    rw (create-mapping, same_key_refl),
    rw (create-workflow, text_eq_refl),
    simp (create-outbox, text_eq_refl),
  )

  abbrev is_created : Result Thrown CreateWorkflowResult → Bool
  is_created (ok (created w)) = true
  is_created _ = false

  resolved :
      (input : CreateWorkflowInput) (w : s.World)
      → is_created (resolve_existing_workflow platform options s input w).0 ≡ false
  unfolding resolve_existing_workflow resolve_mapping or_throw try_catch
  resolved input w = ground arith

  failed_created :
      (input : CreateWorkflowInput) (e : Thrown) (w : s.World)
      → is_created (create_failed platform options s input e w).0 ≡ false
  unfolding create_failed rethrow
  failed_created input e w = ground (arith, resolved input w)

  answer_created :
      (input : CreateWorkflowInput) (now : ℕ) (d : Result Thrown WorkflowRecord) (w : s.World)
      (wf : WorkflowRecord)
      → decode_workflow platform (workflow_item (new_workflow platform options input now)) ≡ d
      → let a = resume d (λ x. pure (created x)) (create_failed platform options s input) w in
        a.0 ≡ ok (created wf)
        → (wf ≡ (new_workflow platform options input now).document) × (a.1 ≡ w)
  unfolding try_catch
  answer_created input now (ok x) w wf e h =
      (ground (arith, decode_workflow_ok platform _ x e), refl)
  answer_created input now (err x) w wf e h = ground (arith, failed_created input x w)

  transaction_created :
      (input : CreateWorkflowInput) (now : ℕ) (r : Result Thrown (Unit {0})) (w : s.World)
      (wf : WorkflowRecord) (t : Table)
      → Transacts (create_writes platform options input now) t r (s.table w)
      → let d =
          decode_workflow platform (workflow_item (new_workflow platform options input now)) in
        let b = resume r (λ _. lift d) throw w in
        let a = resume b.0 (λ x. pure (created x)) (create_failed platform options s input) b.1 in
        a.0 ≡ ok (created wf)
        → (wf ≡ (new_workflow platform options input now).document) × Stores input now (s.table a.1)
  unfolding try_catch
  transaction_created input now (ok x) w wf t tr h =
      let d = decode_workflow platform (workflow_item (new_workflow platform options input now)) in
      let (p, q) = answer_created input now d w wf refl h in
      (p, rw (q, tr.1) (create_writes-Stores input now t))
  transaction_created input now (err e) w wf t tr h = ground (arith, failed_created input e w)

  -- CREATED: the mapping, the workflow in flight and the pending event were stored as one.
  pub create_workflow_created :
      (input : CreateWorkflowInput) (now : ℕ) (w : s.World) (wf : WorkflowRecord)
      → let a = create_workflow platform options s input now w in
        a.0 ≡ ok (created wf)
        → (wf ≡ (new_workflow platform options input now).document) × Stores input now (s.table a.1)
  unfolding create_workflow try_catch
  create_workflow_created input now w wf h =
      let xs = create_writes platform options input now in
      let (t, ev, tr) = s.transact_lem xs w in
      transaction_created input now (s.transact xs w).0 (s.transact xs w).1 wf t tr h
