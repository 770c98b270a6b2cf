-- ===== src/Repository/Outcomes/Existing.antt =====
-- The answer EXISTING of createWorkflow.
use api_proxy.Base.{
  ℕ, ◌≡◌, refl, sym, ap, subst, ◌∙◌, false, Text, text_eq→eq, Option, none, some, Result, ok, err,
  pure, throw, lift, try_catch, resume, arith,
}
use api_proxy.Contracts.Errors.{Thrown, ErrorCode}
use api_proxy.Contracts.Ids.{Platform}
use api_proxy.Contracts.Workflow.{WorkflowRecord}
use api_proxy.Persistence.Keys.{TableKey, workflow_key, idempotency_key_item}
use api_proxy.Persistence.Keys.Apart.{same_key→eq}
use api_proxy.Persistence.Keys.Injective.{idempotency_key_item-injective}
use api_proxy.Persistence.Items.{
  Item, IdempotencyItem, WorkflowItem, workflow_item, idempotency_item, mapping_of,
  decode_idempotency, decode_workflow,
}
use api_proxy.Persistence.Failures.{condition_failed_at}
use api_proxy.Repository.Writes.{create_writes, new_workflow}
use api_proxy.Repository.Safety.{Safe-transact}
use api_proxy.Persistence.Dynamo.{Table, Reads}
use api_proxy.Repository.{
  RepositoryOptions, CreateWorkflowInput, CreateWorkflowResult, created, existing,
}
use api_proxy.Repository.Commit.{Evolves, IsValidInput, create}
use api_proxy.Repository.Commit.Terminal.{mapping_forever}
use api_proxy.Repository.Commit.Links.Mapping.{Identity, mapping_identity}
use api_proxy.Repository.Service.{Service}
use api_proxy.Repository.Soundness.{IsSound, Evolves-IsSound}
use api_proxy.Repository.Methods.{
  create_workflow, create_failed, rethrow, resolve_existing_workflow, resolve_item, resolve_mapping,
  get_workflow, or_throw,
}
use api_proxy.Repository.Outcomes.Decode.{decode_idempotency_ok, decode_workflow_err}
use api_proxy.Repository.Outcomes.Get.{bind_ok, get_workflow-Served}

or_throw_ok :
    {W A : Type 0} (o : Option A) (c : ErrorCode) (m : Text) (w : W) (a : A)
    → (or_throw o c m w).0 ≡ ok a
    → (o ≡ some a) × ((or_throw o c m w).1 ≡ w)
unfolding or_throw
or_throw_ok none c m w a h = cc
or_throw_ok (some b) c m w a h = (cc, refl)

mapping_of-item :
    (raw : Item) (m : IdempotencyItem) → mapping_of raw ≡ some m → raw ≡ idempotency_item m
mapping_of-item raw m h = ground arith

module _ (platform : Platform) (options : RepositoryOptions) (s : Service platform options) where
  pub mapping_existing :
      (input : CreateWorkflowInput) (m : IdempotencyItem) (w : s.World) (wf : WorkflowRecord)
      → (resolve_mapping platform options s input m w).0 ≡ ok (existing wf)
      → (m.payload_hash ≡ input.payload_hash)
        × ((get_workflow platform options s m.request_id w).0 ≡ ok (some wf))
        × ((resolve_mapping platform options s input m w).1
            ≡ (get_workflow platform options s m.request_id w).1)
  unfolding resolve_mapping try_catch or_throw
  mapping_existing input m w wf h = ground (arith, text_eq→eq m.payload_hash input.payload_hash)

  pub mapping_served :
      (k : TableKey) (t : Table) (q : Result Thrown (Option Item)) (v : s.World) (o : Option Item)
      → Reads k t q (s.table v)
      → q ≡ ok o
      → (o ≡ t k) × (s.table v ≡ t)
  mapping_served k t (ok x) v o rd e = (ground arith, rd.1)
  mapping_served k t (err x) v o rd e = cc

  decoded_mapping :
      (input : CreateWorkflowInput) (raw : Item) (v : s.World) (r : CreateWorkflowResult)
      (d : Result Thrown IdempotencyItem)
      → decode_idempotency platform raw ≡ d
      → (resume d (resolve_mapping platform options s input) throw v).0 ≡ ok r
      → (m : IdempotencyItem) × (raw ≡ idempotency_item m)
        × (resume d (resolve_mapping platform options s input) throw v
            ≡ resolve_mapping platform options s input m v)
  unfolding try_catch
  decoded_mapping input raw v r (ok m) e h =
      (m, mapping_of-item raw m (decode_idempotency_ok platform raw m e), refl)
  decoded_mapping input raw v r (err x) e h = cc

  -- The rest of the method, once the item was read: there was a mapping.
  pub resolve_item_ok :
      (input : CreateWorkflowInput) (o : Option Item) (v : s.World) (r : CreateWorkflowResult)
      → (resolve_item platform options s input o v).0 ≡ ok r
      → (m : IdempotencyItem) × (o ≡ some (idempotency_item m))
        × (resolve_item platform options s input o v ≡ resolve_mapping platform options s input m v)
  unfolding resolve_item try_catch or_throw
  resolve_item_ok input none v r h = cc
  resolve_item_ok input (some raw) v r h =
      let (m, e, k) = decoded_mapping input raw v r (decode_idempotency platform raw) refl h in
      (m, ap some e, k)

  abbrev mapped_identity : IdempotencyItem → Identity
  mapped_identity m = record {
    request_id = m.request_id;
    tenant_id = m.tenant_id;
    idempotency_key = m.idempotency_key;
    payload_hash = m.payload_hash;
  }

  -- A mapping found under the caller's key belongs to the caller, and its workflow is stored.
  mapping_owned :
      (input : CreateWorkflowInput) (t u : Table) (m : IdempotencyItem) (i : WorkflowItem)
      → IsValidInput input
      → IsSound platform options t
      → t (idempotency_key_item input.tenant_id input.idempotency_key) ≡ some (idempotency_item m)
      → Evolves platform options t u
      → u (workflow_key m.request_id) ≡ some (workflow_item i)
      → (i.document.tenant_id ≡ input.tenant_id)
        × (i.document.idempotency_key ≡ input.idempotency_key)
        × (i.document.payload_hash ≡ m.payload_hash)
  mapping_owned input t u m i v sound h ev k =
      let d = mapped_identity m in
      let before = ap mapping_identity h in
      let after = ap mapping_identity (mapping_forever platform options t u _ _ _ h ev) in
      let w = Evolves-IsSound platform options t u sound ev in
      let id = w.linked.mapped _ _ d after in
      let (same, valid) = sound.linked.placed _ _ d before in
      let (p, q) =
        idempotency_key_item-injective m.tenant_id input.tenant_id m.idempotency_key
          input.idempotency_key valid v.0 (same_key→eq _ _ same) in
      (ground arith, ground arith, ground arith)

  resolved_existing :
      (input : CreateWorkflowInput) (w : s.World) (wf : WorkflowRecord)
      → IsValidInput input
      → IsSound platform options (s.table w)
      → (resolve_existing_workflow platform options s input w).0 ≡ ok (existing wf)
      → (wf.tenant_id ≡ input.tenant_id)
        × (wf.idempotency_key ≡ input.idempotency_key)
        × (wf.payload_hash ≡ input.payload_hash)
  unfolding resolve_existing_workflow
  resolved_existing input w wf v sound h =
      let k = idempotency_key_item input.tenant_id input.idempotency_key in
      let R = Result Thrown CreateWorkflowResult × s.World in
      let (o, e, p) = bind_ok (s.get k) (resolve_item platform options s input) w (existing wf) h in
      let (t, ev, rd) = s.get_lem k w in
      let (at_key, now_t) = mapping_served k t (s.get k w).0 (s.get k w).1 o rd e in
      let (m, is_m, q) =
        resolve_item_ok input o (s.get k w).1 (existing wf) (sym (ap (λ (x : R). x.0) p) ∙ h) in
      let (hash, found, _) =
        mapping_existing input m (s.get k w).1 wf
          (sym (ap (λ (x : R). x.0) q) ∙ sym (ap (λ (x : R). x.0) p) ∙ h) in
      let (u, i, ev', _, stored, doc) =
        get_workflow-Served platform options s m.request_id (s.get k w).1 (some wf) found in
      let (a, b, c) =
        mapping_owned input t u m i v (Evolves-IsSound platform options (s.table w) t sound ev)
          (sym at_key ∙ is_m) (subst (λ x. Evolves platform options x u) now_t ev') stored in
      (rw (← doc) a, rw (← doc) b, rw (← doc) (c ∙ hash))

  created_or_resolved :
      (input : CreateWorkflowInput) (r : Result Thrown (Unit {0})) (w : s.World)
      (d : Result Thrown WorkflowRecord) (wf : WorkflowRecord)
      → ((e : Thrown) → d ≡ err e → condition_failed_at e 0 ≡ false)
      → let b = resume r (λ _. lift d) throw w in
        let a = resume b.0 (λ x. pure (created x)) (create_failed platform options s input) b.1 in
        a.0 ≡ ok (existing wf)
        → (resolve_existing_workflow platform options s input w).0 ≡ ok (existing wf)
  unfolding try_catch create_failed rethrow
  created_or_resolved input (ok x) w (ok y) wf n h = cc
  created_or_resolved input (ok x) w (err e) wf n h = ground (arith, n e refl)
  created_or_resolved input (err e) w d wf n h = ground arith

  -- EXISTING: from a sound table, the workflow that a retry is given was created by the same tenant
  -- under the same idempotency key for the same payload.
  pub create_workflow_existing :
      (input : CreateWorkflowInput) (now : ℕ) (w : s.World) (wf : WorkflowRecord)
      → IsValidInput input
      → IsSound platform options (s.table w)
      → (create_workflow platform options s input now w).0 ≡ ok (existing wf)
      → (wf.tenant_id ≡ input.tenant_id)
        × (wf.idempotency_key ≡ input.idempotency_key)
        × (wf.payload_hash ≡ input.payload_hash)
  unfolding create_workflow try_catch
  create_workflow_existing input now w wf v sound h =
      let xs = create_writes platform options input now in
      let safe = Safe-transact platform options s xs (λ t u. create input now v) in
      resolved_existing input (s.transact xs w).1 wf v
        (Evolves-IsSound platform options _ _ sound (safe.at w))
        (created_or_resolved input (s.transact xs w).0 (s.transact xs w).1
          (decode_workflow platform (workflow_item (new_workflow platform options input now))) wf
          (decode_workflow_err platform _) h)
