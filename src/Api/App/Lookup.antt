-- ===== src/Api/App/Lookup.antt =====
-- app.ts: the lookup against the stored workflow, and the refusal of work while a task drains.
use api_proxy.Base.{
  ◌≡◌, refl, sym, ap, subst, ◌∙◌, Bool, true, false, Text, Option, none, some, List, Result, ok,
  Exec, pure, try_catch, ◌>>=◌, if◌then◌else◌, arith,
}
use api_proxy.Base.Trim.{starts_with}
use api_proxy.Contracts.Errors.{Thrown}
use api_proxy.Contracts.Ids.{Platform}
use api_proxy.Contracts.Workflow.{WorkflowRecord}
use api_proxy.Repository.{RepositoryOptions}
use api_proxy.Repository.Service.{Service}
use api_proxy.Repository.Methods.{get_workflow_for_tenant}
use api_proxy.Lifecycle.{is_accepting_work}
use api_proxy.Api.KeyStore.{ResolvedCaller}
use api_proxy.Api.Problems.{not_found}
use api_proxy.Api.App.{Request, Reply, AppDependencies}
use api_proxy.Api.App.Replies.{send_problem, draining_reply}
use api_proxy.Api.App.Routes.{
  api_prefix, is_get, authenticate, found_reply, get_process, after_hook, handle,
}
use api_proxy.Repository.Outcomes.Get.{Served, bind_ok, get_workflow_for_tenant_owned}
use api_proxy.Lifecycle.{Lifecycle, Call, begin_drain, run, drained_forever}

module _ {platform : Platform} {options : RepositoryOptions} {s : Service platform options}
    (deps : AppDependencies s) where
  found_200 :
      (o : Option WorkflowRecord)
      → (found_reply deps o).status ≡ 200
      → (d : WorkflowRecord) × (o ≡ some d)
  unfolding found_reply send_problem
  found_200 none e = absurd (ground arith)
  found_200 (some d) e = (d, refl)

  module _ (c : ResolvedCaller) (id : Text) (w : s.World) (reply : Reply) where
    looked_up : Exec s.World Thrown Reply
    looked_up =
        get_workflow_for_tenant platform options s id c.tenant_id >>= λ o. pure (found_reply deps o)

    looked_up_owned :
        (looked_up w).0 ≡ ok reply
        → reply.status ≡ 200
        → (d : WorkflowRecord) × (reply ≡ found_reply deps (some d))
          × (d.tenant_id ≡ c.tenant_id)
          × Served platform options s id w (looked_up w).1 (some d)
    unfolding looked_up pure
    looked_up_owned e k =
        let R = Result Thrown Reply × s.World in
        let (o, e', q) =
          bind_ok (get_workflow_for_tenant platform options s id c.tenant_id)
            (λ x. pure (found_reply deps x)) w reply e in
        let same : found_reply deps o ≡ reply =
          answer (found_reply deps o) (sym (ap (λ (x : R). x.0) q) ∙ e) in
        let (d, is_d) = found_200 o (ap (λ (x : Reply). x.status) same ∙ k) in
        let (own, served) =
          get_workflow_for_tenant_owned platform options s id c.tenant_id w d (e' ∙ ap ok is_d) in
        (
          d,
          sym same ∙ ap (found_reply deps) is_d,
          own,
          subst (λ v. Served platform options s id w v (some d)) (sym (ap (λ (x : R). x.1) q))
              served,
        )
      where
        answer : (x : Reply) → ◌≡◌ {A = Result Thrown Reply} (ok x) (ok reply) → x ≡ reply
        answer x h = ground arith

    -- A lookup that is answered with the state of a workflow is answered with that of the one that
    -- was stored under the id, and that one belongs to the caller.
    pub get_process_owned :
        (get_process deps (some c) id w).0 ≡ ok reply
        → reply.status ≡ 200
        → (d : WorkflowRecord) × (reply ≡ found_reply deps (some d))
          × (d.tenant_id ≡ c.tenant_id)
          × Served platform options s id w (get_process deps (some c) id w).1 (some d)
    unfolding get_process send_problem pure try_catch looked_up
    get_process_owned = go (platform.is_uuid id)
      where
        go :
            (b : Bool)
            → let m : Exec s.World Thrown Reply =
                if b then looked_up else pure (send_problem not_found) in
              (m w).0 ≡ ok reply
              → reply.status ≡ 200
              → (d : WorkflowRecord) × (reply ≡ found_reply deps (some d))
                × (d.tenant_id ≡ c.tenant_id)
                × Served platform options s id w (m w).1 (some d)
        go true e k = looked_up_owned e k
        go false e k = absurd (ground arith)

  -- From the moment when a task drains, whatever is called on its lifecycle afterwards, a request
  -- below /v1/ that is not a GET is answered with 503 before anything else is done: the table and
  -- all else stay as they are.
  pub handle_drained :
      (request : Request) (w : s.World) (l : Lifecycle) (calls : List Call)
      → starts_with api_prefix request.url ≡ true
      → is_get request.method ≡ false
      → deps.lifecycle w ≡ (run calls (begin_drain l)).state
      → handle deps request w ≡ (ok draining_reply, w)
  unfolding handle authenticate after_hook try_catch
  handle_drained request w l calls url method state =
      let refused : is_accepting_work (deps.lifecycle w) ≡ false =
        ap is_accepting_work state ∙ (drained_forever calls l).0 in
      ground arith
