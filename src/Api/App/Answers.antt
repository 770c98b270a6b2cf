-- ===== src/Api/App/Answers.antt =====
-- app.ts: what the replies of the routes tell.
use api_proxy.Base.{
  ◌≡◌, refl, ap, ◌∙◌, Bool, true, false, Text, Option, none, some, Result, ok, err, pure,
  if◌then◌else◌, arith,
}
use api_proxy.Base.Triple.{Ends-cases, Triple, Triple-pure, Triple-if, Triple-bind}
use api_proxy.Contracts.Errors.{Thrown}
use api_proxy.Contracts.Ids.{Platform, idempotency_key_schema, tenant_id_schema}
use api_proxy.Contracts.Json.{Json}
use api_proxy.Contracts.Domain.{OperationInput}
use api_proxy.Contracts.Http.{process_request_schema}
use api_proxy.Contracts.Workflow.{WorkflowRecord, is_terminal}
use api_proxy.Persistence.Dynamo.{Table}
use api_proxy.Repository.{RepositoryOptions}
use api_proxy.Repository.Commit.{Evolves-trans}
use api_proxy.Repository.Service.{Service}
use api_proxy.Repository.Methods.{get_workflow_for_tenant}
use api_proxy.Repository.Outcomes.Get.{get_workflow_for_tenant_owned}
use api_proxy.Repository.Outcomes.Stored.{IsStored}
use api_proxy.Persistence.Keys.{workflow_key}
use api_proxy.Repository.Safety.Methods.{get_workflow_for_tenant-Safe}
use api_proxy.Api.KeyStore.{ResolvedCaller}
use api_proxy.Api.App.{FastifyError, Request, Reply, AppDependencies}
use api_proxy.Api.App.Replies.{send_problem, terminal_reply, processing_reply, handle_error}
use api_proxy.Api.App.Routes.{
  Handler, valid_key, with_body, with_key, process, found_reply, get_process,
}
use api_proxy.Api.App.Handled.{
  IsResolved, IsResolvedIf, Shows, Shown, Stopped, Since, problem-Shown, create_and_wait-Shown,
  terminal_reply-Shows, processing_reply-Shows,
}

module _ {platform : Platform} {options : RepositoryOptions} {s : Service platform options}
    (deps : AppDependencies s) (request : Request) (start : s.World) where
  open s use {World}
  open deps use {settings, clock, api_keys}

  abbrev Told : Reply → World → Type 0
  Told = Shown deps request start

  abbrev At : World → Type 0
  At = Since deps request start

  abbrev Halted : Thrown → World → Type 0
  Halted = Stopped deps request start

  module _ (c : ResolvedCaller) (r : IsResolved deps request start c) where
    -- The tenant of a caller meets its schema.
    tenant : tenant_id_schema c.tenant_id ≡ true
    tenant = let (presented, _, _, e) = r in api_keys.resolve_valid presented start c e

    with_body-Shown :
        (key : Text) (input : Option OperationInput)
        → idempotency_key_schema key ≡ true
        → Triple At (with_body deps c key input) Told Halted
    unfolding with_body
    with_body-Shown key none valid = problem-Shown deps request start _ (λ w h. h)
    with_body-Shown key (some input) valid =
        create_and_wait-Shown deps request start c r tenant key input valid

    with_key-Shown :
        (body : Json) (given : Option Text)
        → Triple At (with_key deps c body (valid_key deps given)) Told Halted
    unfolding with_key
    with_key-Shown body none = problem-Shown deps request start _ (λ w h. h)
    with_key-Shown body (some key) = go (idempotency_key_schema key) refl
      where
        go :
            (b : Bool)
            → idempotency_key_schema key ≡ b
            → Triple At (with_key deps c body (if b then some key else none)) Told Halted
        go true e = with_body-Shown key (process_request_schema body) e
        go false e = problem-Shown deps request start _ (λ w h. h)

    -- What a lookup finds is in the table.
    abbrev Found : Option WorkflowRecord → World → Type 0
    Found none w = At w
    Found (some d) w = At w × IsStored (s.table w) d

    found_reply-Shown :
        (o : Option WorkflowRecord) → Triple (Found o) (pure (found_reply deps o)) Told Halted
    unfolding found_reply send_problem
    found_reply-Shown none = Triple-pure _ (λ w h. (h, refl))
    found_reply-Shown (some d) = Triple-pure _ (λ w h. (h.0, go w h.1 (is_terminal d.status) refl))
      where
        go :
            (w : World)
            → IsStored (s.table w) d
            → (b : Bool) → is_terminal d.status ≡ b
            → Shows deps request start
                (if b then terminal_reply d else processing_reply settings d.request_id)
                w
        go w h true e = terminal_reply-Shows deps request start c d w r e h
        go w h false e = processing_reply-Shows deps request start c d.request_id w r

    module _ (id : Text) where
      abbrev looking_up : Handler deps (Option WorkflowRecord)
      looking_up = get_workflow_for_tenant platform options s id c.tenant_id

      looking_up-Found :
          (o : Option WorkflowRecord) (w : World)
          → (looking_up w).0 ≡ ok o
          → At (looking_up w).1
          → Found o (looking_up w).1
      looking_up-Found none w e h = h
      looking_up-Found (some d) w e h =
          let (_, (t, i, _, same, k, doc)) =
            get_workflow_for_tenant_owned platform options s id c.tenant_id w d e in
          (h, (id, i, ap (λ (f : Table). f (workflow_key id)) same ∙ k, doc))

      get_workflow_for_tenant-Found : Triple At looking_up Found Halted
      get_workflow_for_tenant-Found = record {
        at = λ w h.
            let later =
              Evolves-trans platform options h
                ((get_workflow_for_tenant-Safe platform options s id c.tenant_id).at w) in
            Ends-cases Found Halted (looking_up w).0 (looking_up w).1
              (λ o e. looking_up-Found o w e later) (λ e _. later);
      }

    get_process-Shown : (id : Text) → Triple At (get_process deps (some c) id) Told Halted
    unfolding get_process
    get_process-Shown id =
        Triple-if (platform.is_uuid id) _ _
          (λ _. Triple-bind Found _ _ (get_workflow_for_tenant-Found id) found_reply-Shown)
          (λ _. problem-Shown deps request start _ (λ w h. h))

  process-Shown :
      (caller : Option ResolvedCaller) (body : Json)
      → IsResolvedIf deps request start caller
      → Triple At (process deps caller request body) Told Halted
  unfolding process
  process-Shown none body r = problem-Shown deps request start _ (λ w h. h)
  process-Shown (some c) body r =
      Triple-bind (λ n. At) _ _
        (record { at = λ w h. Evolves-trans platform options h (clock.read_lem w) })
        (λ n. with_key-Shown c r body request.idempotency_key)

  pub lookup-Shown :
      (caller : Option ResolvedCaller) (id : Text)
      → IsResolvedIf deps request start caller
      → Triple At (get_process deps caller id) Told Halted
  unfolding get_process
  lookup-Shown none id r = problem-Shown deps request start _ (λ w h. h)
  lookup-Shown (some c) id r = get_process-Shown c r id

  pub handle_error-Shows :
      (e : FastifyError) (v : World) → Shows deps request start (handle_error settings e) v
  unfolding handle_error send_problem
  handle_error-Shows e v = ground arith

  pub with_parsed-Shown :
      (caller : Option ResolvedCaller) (parsed : Result FastifyError Json)
      → IsResolvedIf deps request start caller
      → let m : Handler deps Reply = elim parsed [
        | err e ↦ pure (handle_error settings e)
        | ok body ↦ process deps caller request body
      ] in
        Triple At m Told Halted
  with_parsed-Shown caller (err e) r = Triple-pure _ (λ w h. (h, handle_error-Shows e w))
  with_parsed-Shown caller (ok body) r = process-Shown caller body r
