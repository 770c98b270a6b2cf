-- ===== src/Api/App/Handled.antt =====
-- app.ts: what a reply tells, and the transitions that a request makes.
use api_proxy.Base.{
  ℕ, ◌+◌, ◌≡◌, refl, sym, ap, subst, true, Text, Option, none, some, Result, ok, err, pure, arith,
}
use api_proxy.Base.Triple.{Ends, Ends-cases, Triple, Triple-pure, Triple-if, Triple-bind}
use api_proxy.Base.Trim.{starts_with}
use api_proxy.Contracts.Errors.{Thrown}
use api_proxy.Contracts.Ids.{Platform, idempotency_key_schema, tenant_id_schema}
use api_proxy.Contracts.Domain.{OperationInput}
use api_proxy.Contracts.Workflow.{WorkflowRecord, WorkflowStatus, is_terminal}
use api_proxy.Persistence.Dynamo.{Table}
use api_proxy.Repository.Commit.Terminal.{terminal_forever}
use api_proxy.Repository.Outcomes.Stored.{IsStored, create_workflow-IsStored}
use api_proxy.Repository.Methods.{create_workflow}
use api_proxy.Repository.{
  RepositoryOptions, CreateWorkflowInput, CreateWorkflowResult, created, existing, conflict,
}
use api_proxy.Repository.Commit.{IsValidInput, Evolves, Evolves-trans}
use api_proxy.Repository.Service.{Service}
use api_proxy.Repository.Clock.{read_clock}
use api_proxy.Repository.Safety.{Safe}
use api_proxy.Repository.Safety.Methods.{create_workflow-Safe}
use api_proxy.Waiter.{WaitResult, terminal, timed_out, aborted, missing}
use api_proxy.Api.KeyStore.{ResolvedCaller}
use api_proxy.Api.Problems.{HttpProblem}
use api_proxy.Api.App.{
  Request, problem, completed, failed, processing, live, ready, route_not_found, Reply,
  AppDependencies, WaitedFor,
}
use api_proxy.Api.App.Replies.{
  send_problem, terminal_body, terminal_reply, accepted_reply, processing_reply,
}
use api_proxy.Api.App.Routes.{
  api_prefix, presented_key, Handler, waited_reply, wait_and_reply, after_create, creation,
  create_and_wait,
}

module _ {platform : Platform} {options : RepositoryOptions} {s : Service platform options}
    (deps : AppDependencies s) (request : Request) (start : s.World) where
  open s use {World}
  open deps use {settings, clock, api_keys, waiter, randomness}

  abbrev pub Since : World → Type 0
  Since w = Evolves platform options (s.table start) (s.table w)

  -- The key of the request is resolved to `c` where the request begins.
  abbrev pub IsResolved : ResolvedCaller → Type 0
  IsResolved c =
      (presented : Text) × (starts_with api_prefix request.url ≡ true)
      × (presented_key request.authorization ≡ some presented)
      × ((api_keys.resolve presented start).0 ≡ ok (some c))

  abbrev pub IsResolvedIf : Option ResolvedCaller → Type 0
  IsResolvedIf none = Unit {0}
  IsResolvedIf (some c) = IsResolved c

  -- The body is that of a finished workflow that is in the table of the world `v`.
  abbrev pub ShowsStored : Reply → World → Type 0
  ShowsStored reply v =
      (reply.status ≡ 200)
      × ((workflow : WorkflowRecord) × (is_terminal workflow.status ≡ true)
          × (reply.body ≡ terminal_body workflow)
          × IsStored (s.table v) workflow)

  -- Who sees the state of a workflow was authenticated; a result comes with 200 and is that of a
  -- finished workflow in the table, and the status of a problem is its own.
  abbrev pub Shows : Reply → World → Type 0
  Shows reply v = elim reply.body [
    | problem p ↦ reply.status ≡ p.status
    | completed request_id result ↦ ((c : ResolvedCaller) × IsResolved c) × ShowsStored reply v
    | failed request_id code message ↦ ((c : ResolvedCaller) × IsResolved c) × ShowsStored reply v
    | processing request_id poll_url n ↦ (c : ResolvedCaller) × IsResolved c
    | live b ↦ Unit {0}
    | ready b state ↦ Unit {0}
    | route_not_found ↦ Unit {0}
  ]

  abbrev pub Shown : Reply → World → Type 0
  Shown reply w = Since w × Shows reply w

  -- Where something is thrown, only transitions were made.
  abbrev pub Stopped : Thrown → World → Type 0
  Stopped e w = Since w

  Ends-Since :
      {A : Type 0} (r : Result Thrown A) (v : World) → Since v → Ends (λ (a : A). Since) Stopped r v
  Ends-Since (ok a) v h = h
  Ends-Since (err e) v h = h

  pub safe :
      {A : Type 0} {m : Handler deps A}
      → Safe platform options s m
      → Triple Since m (λ a. Since) Stopped
  safe {m} k = record {
    at = λ w h. Ends-Since (m w).0 (m w).1 (Evolves-trans platform options h (k.at w));
  }

  read : Triple Since (read_clock clock) (λ n. Since) Stopped
  read = record { at = λ w h. Evolves-trans platform options h (clock.read_lem w) }

  pub problem-Shown :
      {P : World → Type 0} (p : HttpProblem)
      → ((w : World) → P w → Since w)
      → Triple P (pure (send_problem p)) Shown Stopped
  unfolding send_problem
  problem-Shown p k = Triple-pure _ (λ w h. (k w h, refl))

  pub terminal_reply-Shows :
      (c : ResolvedCaller) (d : WorkflowRecord) (v : World)
      → IsResolved c
      → is_terminal d.status ≡ true
      → IsStored (s.table v) d
      → Shows (terminal_reply d) v
  unfolding terminal_reply terminal_body
  terminal_reply-Shows c d v r e stored = go d.status refl
    where
      go :
          (status : WorkflowStatus)
          → d.status ≡ status
          → Shows
              (record {
                status = 200;
                retry_after = none;
                body = terminal_body (record d { status = status });
              })
              v
      go WorkflowStatus.completed k = ((c, r), (refl, (d, e, rw k refl, stored)))
      go WorkflowStatus.failed k = ((c, r), (refl, (d, e, rw k refl, stored)))
      go WorkflowStatus.processing k = absurd (ground arith)

  -- A finished workflow stays in the table.
  IsStored-later :
      (d : WorkflowRecord) (t u : Table)
      → is_terminal d.status ≡ true
      → Evolves platform options t u
      → IsStored t d
      → IsStored u d
  IsStored-later d t u e ev (id, i, k, same) = (
    id,
    i,
    terminal_forever platform options t u id i k
        (subst (λ x. is_terminal x.status ≡ true) (sym same) e) ev,
    same,
  )

  WaitedFor-later :
      (id : Text) (x : WaitResult) (t u : Table)
      → Evolves platform options t u
      → WaitedFor s t id x
      → WaitedFor s u id x
  WaitedFor-later id (terminal d n) t u ev (e, (i, k, same)) = (
    e,
    (
      i,
      terminal_forever platform options t u id i k
          (subst (λ x. is_terminal x.status ≡ true) (sym same) e) ev,
      same,
    ),
  )
  WaitedFor-later id (timed_out n) t u ev h = tt
  WaitedFor-later id (aborted n) t u ev h = tt
  WaitedFor-later id (missing n) t u ev h = tt

  accepted_reply-Shows :
      (c : ResolvedCaller) (id : Text) (v : World)
      → IsResolved c
      → Shows (accepted_reply settings id) v
  unfolding accepted_reply
  accepted_reply-Shows c id v r = (c, r)

  pub processing_reply-Shows :
      (c : ResolvedCaller) (id : Text) (v : World)
      → IsResolved c
      → Shows (processing_reply settings id) v
  unfolding processing_reply
  processing_reply-Shows c id v r = (c, r)

  waited_reply-Shows :
      (c : ResolvedCaller) (id : Text) (r : WaitResult) (v : World)
      → IsResolved c
      → WaitedFor s (s.table v) id r
      → Shows (waited_reply deps id r) v
  unfolding waited_reply
  waited_reply-Shows c id (terminal d n) v r (e, (i, k, same)) =
      terminal_reply-Shows c d v r e (id, i, k, same)
  waited_reply-Shows c id (timed_out n) v r h = accepted_reply-Shows c id v r
  waited_reply-Shows c id (aborted n) v r h = accepted_reply-Shows c id v r
  waited_reply-Shows c id (missing n) v r h = accepted_reply-Shows c id v r

  module _ (c : ResolvedCaller) (r : IsResolved c)
      (tenant : tenant_id_schema c.tenant_id ≡ true) where
    abbrev Waited : Text → WaitResult → World → Type 0
    Waited id x w = Since w × WaitedFor s (s.table w) id x

    Ends-Waited :
        (id : Text) (d : ℕ) (w v : World) (x : Result Thrown WaitResult)
        → waiter.wait id d w ≡ (x, v)
        → Since v
        → Ends (Waited id) Stopped x v
    Ends-Waited id d w v (ok x) e h = (
      h,
      subst (λ (y : Result Thrown WaitResult × World). WaitedFor s (s.table y.1) id x) e
          (waiter.wait_waited id d w x (ap (λ y. y.0) e)),
    )
    Ends-Waited id d w v (err x) e h = h

    wait_and_reply-Shown : (id : Text) → Triple Since (wait_and_reply deps id) Shown Stopped
    unfolding wait_and_reply
    wait_and_reply-Shown id =
        Triple-bind (λ n. Since) _ _ read
          (λ now.
            Triple-bind (Waited id) _ _
              (record {
                at = λ w h.
                    Ends-Waited id (now + settings.sync_wait_timeout_ms) w _ _ refl
                      (Evolves-trans platform options h (waiter.wait_lem id _ w));
              })
              (λ x.
                Triple-bind (λ n. Waited id x) _ _
                  (record {
                    at = λ w h. (
                      Evolves-trans platform options h.0 (clock.read_lem w),
                      WaitedFor-later id x (s.table w) _ (clock.read_lem w) h.1,
                    );
                  })
                  (λ n.
                    Triple-pure (waited_reply deps id x)
                      (λ w h. (h.0, waited_reply-Shows c id x w r h.1)))))

    -- A workflow that was there already is in the table.
    abbrev Created : CreateWorkflowResult → World → Type 0
    Created (created d) w = Since w
    Created (existing d) w = Since w × IsStored (s.table w) d
    Created (conflict id hash) w = Since w

    after_create-Shown :
        (x : CreateWorkflowResult) → Triple (Created x) (after_create deps x) Shown Stopped
    unfolding after_create
    after_create-Shown (conflict id hash) = problem-Shown _ (λ w h. h)
    after_create-Shown (created d) = wait_and_reply-Shown d.request_id
    after_create-Shown (existing d) =
        Triple-if (is_terminal d.status) _ _
          (λ e.
            Triple-bind (λ n. Created (existing d)) _ _
              (record {
                at = λ w h. (
                  Evolves-trans platform options h.0 (clock.read_lem w),
                  IsStored-later d (s.table w) _ e (clock.read_lem w) h.1,
                );
              })
              (λ n. Triple-pure _ (λ w h. (h.0, terminal_reply-Shows c d w r e h.1))))
          (λ e. record { at = λ w h. (wait_and_reply-Shown d.request_id).at w h.0 })

    module _ (input : CreateWorkflowInput) (now : ℕ) (valid : IsValidInput input) where
      abbrev creating : Handler deps CreateWorkflowResult
      creating = create_workflow platform options s input now

      creating-Created :
          (x : CreateWorkflowResult) (w : World)
          → (creating w).0 ≡ ok x
          → Since (creating w).1
          → Created x (creating w).1
      creating-Created (created d) w e h = h
      creating-Created (existing d) w e h =
          (h, create_workflow-IsStored platform options s input now w d e)
      creating-Created (conflict id hash) w e h = h

      create_workflow-Created : Triple Since creating Created Stopped
      create_workflow-Created = record {
        at = λ w h.
            let later =
              Evolves-trans platform options h
                ((create_workflow-Safe platform options s input now valid).at w) in
            Ends-cases Created Stopped (creating w).0 (creating w).1
              (λ x e. creating-Created x w e later) (λ e _. later);
      }

    pub create_and_wait-Shown :
        (key : Text) (input : OperationInput)
        → idempotency_key_schema key ≡ true
        → Triple Since (create_and_wait deps c key input) Shown Stopped
    unfolding create_and_wait creation
    create_and_wait-Shown key input valid =
        Triple-bind (λ id. Since) _ _
          (record {
            at = λ w h.
                subst (Evolves platform options (s.table start))
                  (sym (randomness.random_uuid_lem w)) h;
          })
          (λ id.
            Triple-bind (λ n. Since) _ _ read
              (λ now.
                Triple-bind Created _ _
                  (Triple-bind (λ n. Since) _ _ read
                    (λ n. create_workflow-Created _ n (tenant, valid)))
                  after_create-Shown))
