-- ===== src/Repository/Outcomes/Stored.antt =====
-- EXISTING of createWorkflow, and the table that the call leaves.
use api_proxy.Base.{
  ℕ, Text, ◌≡◌, refl, sym, ap, ◌∙◌, subst, false, some, Result, ok, err, pure, throw, lift,
  try_catch, resume, arith,
}
use api_proxy.Contracts.Errors.{Thrown}
use api_proxy.Contracts.Ids.{Platform}
use api_proxy.Contracts.Workflow.{WorkflowRecord}
use api_proxy.Persistence.Failures.{condition_failed_at}
use api_proxy.Persistence.Items.{WorkflowItem, workflow_item, decode_workflow}
use api_proxy.Persistence.Keys.{workflow_key, idempotency_key_item}
use api_proxy.Persistence.Dynamo.{Table}
use api_proxy.Repository.{
  RepositoryOptions, CreateWorkflowInput, CreateWorkflowResult, created, existing,
}
use api_proxy.Repository.Service.{Service}
use api_proxy.Repository.Writes.{create_writes, new_workflow}
use api_proxy.Repository.Methods.{
  create_workflow, create_failed, rethrow, resolve_existing_workflow, resolve_item,
}
use api_proxy.Repository.Outcomes.Decode.{decode_workflow_err}
use api_proxy.Repository.Outcomes.Get.{bind_ok, get_workflow-Served}
use api_proxy.Repository.Outcomes.Existing.{mapping_existing, resolve_item_ok}

-- The workflow is the one that the table has under some key of a workflow.
abbrev pub IsStored : Table → WorkflowRecord → Type 0
IsStored t d =
    (id : Text) × (i : WorkflowItem) × (t (workflow_key id) ≡ some (workflow_item i))
    × (i.document ≡ d)

module _ (platform : Platform) (options : RepositoryOptions) (s : Service platform options) where
  abbrev Outcome : Type 0
  Outcome = Result Thrown CreateWorkflowResult × s.World

  resolved-IsStored :
      (input : CreateWorkflowInput) (w : s.World) (wf : WorkflowRecord)
      → (resolve_existing_workflow platform options s input w).0 ≡ ok (existing wf)
      → IsStored (s.table (resolve_existing_workflow platform options s input w).1) wf
  unfolding resolve_existing_workflow
  resolved-IsStored input w wf h =
      let k = idempotency_key_item input.tenant_id input.idempotency_key in
      let (o, e, p) = bind_ok (s.get k) (resolve_item platform options s input) w (existing wf) h in
      let (m, is_m, q) =
        resolve_item_ok platform options s input o (s.get k w).1 (existing wf)
          (sym (ap (λ (x : Outcome). x.0) p) ∙ h) in
      let (hash, found, left) =
        mapping_existing platform options s input m (s.get k w).1 wf
          (sym (ap (λ (x : Outcome). x.0) q) ∙ sym (ap (λ (x : Outcome). x.0) p) ∙ h) in
      let (u, i, _, same, stored, doc) =
        get_workflow-Served platform options s m.request_id (s.get k w).1 (some wf) found in
      let end = ap (λ (x : Outcome). x.1) p ∙ ap (λ (x : Outcome). x.1) q ∙ left in
      (
        m.request_id,
        i,
        ap (λ (x : s.World). s.table x (workflow_key m.request_id)) end
            ∙ ap (λ (f : Table). f (workflow_key m.request_id)) same
            ∙ stored,
        doc,
      )

  resolved_same :
      (input : CreateWorkflowInput) (r : Result Thrown (Unit {0})) (w : s.World)
      (d : Result Thrown WorkflowRecord) (wf : WorkflowRecord)
      → ((e : Thrown) → d ≡ err e → condition_failed_at e 0 ≡ false)
      → let b = resume r (λ _. lift d) throw w in
        let a = resume b.0 (λ x. pure (created x)) (create_failed platform options s input) b.1 in
        a.0 ≡ ok (existing wf) → a ≡ resolve_existing_workflow platform options s input w
  unfolding try_catch create_failed rethrow
  resolved_same input (ok x) w (ok y) wf n h = cc
  resolved_same input (ok x) w (err e) wf n h = ground (arith, n e refl)
  resolved_same input (err e) w d wf n h = ground arith

  -- A workflow that is answered with EXISTING is the one in the table then.
  pub create_workflow-IsStored :
      (input : CreateWorkflowInput) (now : ℕ) (w : s.World) (wf : WorkflowRecord)
      → let a = create_workflow platform options s input now w in
        a.0 ≡ ok (existing wf) → IsStored (s.table a.1) wf
  unfolding create_workflow try_catch
  create_workflow-IsStored input now w wf h =
      let xs = create_writes platform options input now in
      let same =
        resolved_same input (s.transact xs w).0 (s.transact xs w).1
          (decode_workflow platform (workflow_item (new_workflow platform options input now))) wf
          (decode_workflow_err platform _) h in
      subst (λ (x : Outcome). IsStored (s.table x.1) wf) (sym same)
        (resolved-IsStored input (s.transact xs w).1 wf (sym (ap (λ (x : Outcome). x.0) same) ∙ h))
