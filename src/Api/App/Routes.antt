-- ===== src/Api/App/Routes.antt =====
-- app.ts: the hook that authenticates, and the handlers of the routes.
use api_proxy.Base.{
  ℕ, ◌+◌, Bool, true, false, not, ◌&&◌, Text, codes, Option, none, some, [], ◌∷◌, ok, err, Exec,
  pure, try_catch, ◌>>=◌, if◌then◌else◌,
}
use api_proxy.Base.Trim.{trim, starts_with, drop_prefix}
use api_proxy.Contracts.Errors.{Thrown}
use api_proxy.Contracts.Ids.{Platform, idempotency_key_schema}
use api_proxy.Contracts.Json.{Json}
use api_proxy.Contracts.Domain.{OperationInput}
use api_proxy.Contracts.Http.{process_request_schema, request_json}
use api_proxy.Contracts.Workflow.{WorkflowRecord, is_terminal}
use api_proxy.Idempotency.Canonical.{payload_fingerprint}
use api_proxy.Repository.{
  RepositoryOptions, CreateWorkflowInput, CreateWorkflowResult, created, existing, conflict,
}
use api_proxy.Repository.Service.{Service}
use api_proxy.Repository.Clock.{read_clock, timed}
use api_proxy.Repository.Methods.{create_workflow, get_workflow_for_tenant}
use api_proxy.Lifecycle.{LifecycleState, is_accepting_work}
use api_proxy.Waiter.{WaitResult, terminal, timed_out, aborted, missing}
use api_proxy.Api.KeyStore.{ResolvedCaller}
use api_proxy.Api.Problems.{unauthenticated, validation, idempotency_conflict, not_found}
use api_proxy.Api.App.{
  Method, process_route, lookup_route, live_route, ready_route, no_route, Request, route_not_found,
  Reply, AppDependencies,
}
use api_proxy.Api.App.Replies.{
  send_problem, terminal_reply, accepted_reply, processing_reply, draining_reply, handle_error,
  thrown_error, live_reply, ready_reply,
}

abbrev pub bearer_prefix : Text
bearer_prefix = codes "ApiKey "

abbrev pub api_prefix : Text
api_prefix = codes "/v1/"

abbrev pub is_get : Method → Bool
is_get Method.get = true
is_get Method.post = false
is_get (Method.other_method m) = false

-- The credential of the header, if it is of the form that is accepted and not empty.
unfoldable pub presented_key : Option Text → Option Text
unfolding starts_with drop_prefix trim
presented_key none = none
presented_key (some header) =
    if starts_with bearer_prefix header
    then elim (trim (drop_prefix bearer_prefix header)) [ [] ↦ none | c ∷ t ↦ some (c ∷ t) ]
    else none

-- A hook replies, or the handler is called, with `request.caller`.
pub data Hook : Type 0 where
  replied : Reply → Hook
  go_on : Option ResolvedCaller → Hook

module _ {platform : Platform} {options : RepositoryOptions} {s : Service platform options}
    (deps : AppDependencies s) where
  open s use {World}
  open deps use {settings, clock, api_keys, waiter, randomness}

  abbrev pub Handler : Type 0 → Type 0
  Handler A = Exec World Thrown A

  abbrev pub read_lifecycle : Handler LifecycleState
  read_lifecycle w = (ok (deps.lifecycle w), w)

  abbrev pub new_request_id : Handler Text
  new_request_id w = let (r, v) = randomness.random_uuid w in (ok r, v)

  unfoldable pub authenticated : Option ResolvedCaller → Hook
  unfolding send_problem
  authenticated none = replied (send_problem unauthenticated)
  authenticated (some caller) = go_on (some caller)

  unfoldable pub authenticate_with : Option Text → Handler Hook
  unfolding send_problem authenticated pure
  authenticate_with none = pure (replied (send_problem unauthenticated))
  authenticate_with (some presented) = do
    caller ← api_keys.resolve presented
    pure (authenticated caller)

  -- The second `onRequest` hook.
  unfoldable pub authenticate : Request → Handler Hook
  unfolding authenticate_with presented_key draining_reply pure
  authenticate request = if not (starts_with api_prefix request.url) then pure (go_on none) else (do
    state ← read_lifecycle
    if not (is_accepting_work state) && not (is_get request.method)
        then pure (replied draining_reply)
        else authenticate_with (presented_key request.authorization))

  unfoldable pub waited_reply : Text → WaitResult → Reply
  unfolding terminal_reply accepted_reply
  waited_reply request_id (terminal workflow n) = terminal_reply workflow
  waited_reply request_id (timed_out n) = accepted_reply settings request_id
  waited_reply request_id (aborted n) = accepted_reply settings request_id
  waited_reply request_id (missing n) = accepted_reply settings request_id

  -- From the wait on. The last reading of the clock serves a metric.
  unfoldable pub wait_and_reply : Text → Handler Reply
  unfolding waited_reply pure
  wait_and_reply request_id = do
    now ← read_clock clock
    result ← waiter.wait request_id (now + settings.sync_wait_timeout_ms)
    _ ← read_clock clock
    pure (waited_reply request_id result)

  unfoldable pub after_create : CreateWorkflowResult → Handler Reply
  unfolding wait_and_reply send_problem terminal_reply pure
  after_create (conflict request_id hash) = pure (send_problem idempotency_conflict)
  after_create (created workflow) = wait_and_reply workflow.request_id
  after_create (existing workflow) =
      if is_terminal workflow.status
      then (do _ ← read_clock clock; pure (terminal_reply workflow))
      else wait_and_reply workflow.request_id

  unfoldable pub creation : ResolvedCaller → Text → OperationInput → Text → ℕ → CreateWorkflowInput
  unfolding request_json payload_fingerprint
  creation caller key input request_id now = record {
    request_id = request_id;
    tenant_id = caller.tenant_id;
    idempotency_key = key;
    payload_hash = payload_fingerprint platform (request_json input);
    input = request_json input;
    sync_deadline_at = now + settings.sync_wait_timeout_ms;
    business_deadline_at = now + settings.deadline_ms;
  }

  -- The body within `withCorrelation`, from the parsed key and body on.
  unfoldable pub create_and_wait : ResolvedCaller → Text → OperationInput → Handler Reply
  unfolding creation after_create
  create_and_wait caller key input = do
    request_id ← new_request_id
    now ← read_clock clock
    result ←
        timed clock (create_workflow platform options s (creation caller key input request_id now))
    after_create result

  abbrev pub key_message : Text
  key_message = codes "a valid idempotency-key header is required (8-128 chars, [A-Za-z0-9._:-])"

  abbrev pub valid_key : Option Text → Option Text
  valid_key none = none
  valid_key (some key) = if idempotency_key_schema key then some key else none

  unfoldable pub with_body : ResolvedCaller → Text → Option OperationInput → Handler Reply
  unfolding create_and_wait send_problem pure
  with_body caller key none =
      pure (send_problem (validation (codes "request body failed validation")))
  with_body caller key (some input) = create_and_wait caller key input

  unfoldable pub with_key : ResolvedCaller → Json → Option Text → Handler Reply
  unfolding with_body process_request_schema send_problem pure
  with_key caller body none = pure (send_problem (validation key_message))
  with_key caller body (some key) = with_body caller key (process_request_schema body)

  -- POST /v1/process
  unfoldable pub process : Option ResolvedCaller → Request → Json → Handler Reply
  unfolding with_key send_problem pure
  process none request body = pure (send_problem unauthenticated)
  process (some caller) request body = do
    _ ← read_clock clock
    with_key caller body (valid_key request.idempotency_key)

  unfoldable pub found_reply : Option WorkflowRecord → Reply
  unfolding send_problem terminal_reply processing_reply
  found_reply none = send_problem not_found
  found_reply (some workflow) =
      if is_terminal workflow.status
      then terminal_reply workflow
      else processing_reply settings workflow.request_id

  -- GET /v1/process/:requestId
  unfoldable pub get_process : Option ResolvedCaller → Text → Handler Reply
  unfolding found_reply send_problem pure
  get_process none request_id = pure (send_problem unauthenticated)
  get_process (some caller) request_id =
      if platform.is_uuid request_id
      then (do
        workflow ← get_workflow_for_tenant platform options s request_id caller.tenant_id
        pure (found_reply workflow))
      else pure (send_problem not_found)

  -- The body is parsed after the hooks; an error of the framework goes to the error handler.
  unfoldable pub with_parsed : Option ResolvedCaller → Request → Handler Reply
  unfolding process handle_error pure
  with_parsed caller request = elim request.body [
    | err e ↦ pure (handle_error settings e)
    | ok body ↦ process caller request body
  ]

  unfoldable pub dispatch : Option ResolvedCaller → Request → Handler Reply
  unfolding with_parsed get_process live_reply ready_reply pure
  dispatch caller request = elim request.route [
    | process_route ↦ with_parsed caller request
    | lookup_route request_id ↦ get_process caller request_id
    | live_route ↦ read_lifecycle >>= λ state. pure (live_reply state)
    | ready_route ↦ read_lifecycle >>= λ state. pure (ready_reply state)
    | no_route ↦ pure (record { status = 404; retry_after = none; body = route_not_found })
  ]

  unfoldable pub after_hook : Request → Hook → Handler Reply
  unfolding dispatch pure
  after_hook request (replied r) = pure r
  after_hook request (go_on caller) = dispatch caller request

  -- A request from its hooks to the reply, with what is thrown on the way.
  unfoldable pub handle : Request → Handler Reply
  unfolding authenticate after_hook handle_error thrown_error pure
  handle request =
      try_catch (authenticate request >>= after_hook request) pure
        (λ e. pure (handle_error settings (thrown_error e)))
