-- ===== src/Repository/Outcomes/Get.antt =====
-- The answers of getWorkflow and getWorkflowForTenant, and the inversion of a chain of calls.
use api_proxy.Base.{
  ◌≡◌, refl, sym, ap, subst, ◌∙◌, Text, text_eq→eq, Option, none, some, Result, ok, err, Exec, pure,
  throw, lift, try_catch, resume, ◌>>=◌, arith,
}
use api_proxy.Contracts.Errors.{Thrown}
use api_proxy.Contracts.Ids.{Platform}
use api_proxy.Contracts.Workflow.{WorkflowRecord}
use api_proxy.Persistence.Keys.{workflow_key}
use api_proxy.Persistence.Items.{Item, WorkflowItem, workflow_item, workflow_of, decode_workflow}
use api_proxy.Persistence.Dynamo.{Table, Reads}
use api_proxy.Repository.{RepositoryOptions}
use api_proxy.Repository.Commit.{Evolves}
use api_proxy.Repository.Service.{Service}
use api_proxy.Repository.Methods.{
  get_workflow, get_workflow_for_tenant, owned_by, rethrow, decode_found,
}
use api_proxy.Repository.Outcomes.Decode.{decode_workflow_ok}

module _ {W A B : Type 0} where
  -- A chain that returns has returned at its first link.
  pub bind_ok :
      (m : Exec W Thrown A) (f : A → Exec W Thrown B) (w : W) (b : B)
      → ((m >>= f) w).0 ≡ ok b
      → (a : A) × ((m w).0 ≡ ok a) × ((m >>= f) w ≡ f a (m w).1)
  unfolding try_catch
  bind_ok m f w b h = go (m w).0 refl h
    where
      go :
          (r : Result Thrown A)
          → (m w).0 ≡ r
          → (resume r f throw (m w).1).0 ≡ ok b
          → (a : A) × ((m w).0 ≡ ok a) × (resume (m w).0 f throw (m w).1 ≡ f a (m w).1)
      go (ok a) e k = (a, e, ap (λ r. resume r f throw (m w).1) e)
      go (err x) e k = cc

module _ (platform : Platform) (options : RepositoryOptions) (s : Service platform options) where
  workflow_of-item :
      (raw : Item) (wf : WorkflowRecord)
      → workflow_of raw ≡ some wf
      → (i : WorkflowItem) × (raw ≡ workflow_item i) × (i.document ≡ wf)
  workflow_of-item raw wf h = ground arith

  -- The item that stood at the key when the read was served.
  abbrev pub Served : Text → s.World → s.World → Option WorkflowRecord → Type 0
  Served r w v none =
      (t : Table) × Evolves platform options (s.table w) t
      × (s.table v ≡ t)
      × (t (workflow_key r) ≡ none)
  Served r w v (some wf) =
      (t : Table) × (i : WorkflowItem) × Evolves platform options (s.table w) t
      × (s.table v ≡ t)
      × (t (workflow_key r) ≡ some (workflow_item i))
      × (i.document ≡ wf)

  found_item :
      (r : Text) (w v : s.World) (raw : Item) (t : Table) (d : Result Thrown WorkflowRecord)
      → Evolves platform options (s.table w) t
      → s.table v ≡ t
      → some raw ≡ t (workflow_key r)
      → decode_workflow platform raw ≡ d
      → (o : Option WorkflowRecord)
      → let b : Result Thrown (Option WorkflowRecord) = elim d [
        | ok a ↦ ok (some a)
        | err e ↦ err e
      ] in
        let a = resume b pure rethrow v in a.0 ≡ ok o → Served r w a.1 o
  unfolding try_catch rethrow
  found_item r w v raw t (ok wf) ev k g e none h = cc
  found_item r w v raw t (ok wf) ev k g e (some x) h =
      let (i, p, q) = workflow_of-item raw wf (decode_workflow_ok platform raw wf e).0 in
      (t, i, ev, k, cc, ground arith)
  found_item r w v raw t (err e) ev k g d o h = cc

  served :
      (r : Text) (w v : s.World) (q : Result Thrown (Option Item)) (t : Table)
      → Evolves platform options (s.table w) t
      → Reads (workflow_key r) t q (s.table v)
      → (o : Option WorkflowRecord)
      → let b = resume q (λ item. lift (decode_found (decode_workflow platform) item)) throw v in
        let a = resume b.0 pure rethrow b.1 in a.0 ≡ ok o → Served r w a.1 o
  unfolding try_catch rethrow
  served r w v (ok none) t ev rd none h = (t, ev, rd.1, sym rd.0)
  served r w v (ok none) t ev rd (some wf) h = cc
  served r w v (ok (some raw)) t ev rd o h =
      found_item r w v raw t (decode_workflow platform raw) ev rd.1 rd.0 refl o h
  served r w v (err e) t ev rd o h = cc

  -- The answer is the document of the item that stood at the key, or there was none.
  pub get_workflow-Served :
      (r : Text) (w : s.World) (o : Option WorkflowRecord)
      → let a = get_workflow platform options s r w in a.0 ≡ ok o → Served r w a.1 o
  unfolding get_workflow try_catch
  get_workflow-Served r w o h =
      let k = workflow_key r in
      let (t, ev, rd) = s.get_lem k w in served r w (s.get k w).1 (s.get k w).0 t ev rd o h

  owned_by-some :
      (c : Text) (o : Option WorkflowRecord) (wf : WorkflowRecord)
      → owned_by c o ≡ some wf
      → (o ≡ some wf) × (wf.tenant_id ≡ c)
  unfolding owned_by
  owned_by-some c none wf h = cc
  owned_by-some c (some x) wf h = ground (arith, text_eq→eq x.tenant_id c)

  -- The read that the HTTP handlers have never shows a tenant another tenant's workflow: what it
  -- returns is stored under the request id and belongs to the caller.
  pub get_workflow_for_tenant_owned :
      (r c : Text) (w : s.World) (wf : WorkflowRecord)
      → let a = get_workflow_for_tenant platform options s r c w in
        a.0 ≡ ok (some wf) → (wf.tenant_id ≡ c) × Served r w a.1 (some wf)
  unfolding get_workflow_for_tenant pure
  get_workflow_for_tenant_owned r c w wf h =
      let f = λ (o : Option WorkflowRecord). pure {W = s.World} {E = Thrown} (owned_by c o) in
      let (o, e, k) = bind_ok (get_workflow platform options s r) f w (some wf) h in
      let m : ◌≡◌ {A = Result Thrown (Option WorkflowRecord)} (ok (owned_by c o)) (ok (some wf)) =
        sym (ap (λ (x : Result Thrown (Option WorkflowRecord) × s.World). x.0) k) ∙ h in
      let (p, q) = owned_by-some c o wf (cc) in
      (
        q,
        subst (λ v. Served r w v (some wf))
            (sym (ap (λ (x : Result Thrown (Option WorkflowRecord) × s.World). x.1) k))
            (get_workflow-Served r w (some wf) (e ∙ ap ok p)),
      )
