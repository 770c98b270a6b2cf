-- ===== src/Api/App.antt =====
-- apps/api/src/app.ts: requests and replies, and what the application is given.
pub mod Replies
pub mod Routes
pub mod Handled
pub mod Answers
pub mod Handle
pub mod Lookup
pub mod Implementations
use api_proxy.Base.{ℕ, ◌≡◌, ◌≤◌, ◌<◌, Bool, true, Text, Option, none, some, Result, ok, Exec}
use api_proxy.Contracts.Errors.{ErrorCode, Thrown}
use api_proxy.Contracts.Ids.{Platform, tenant_id_schema}
use api_proxy.Contracts.Json.{Json}
use api_proxy.Contracts.Workflow.{WorkflowRecord, is_terminal}
use api_proxy.Persistence.Keys.{workflow_key}
use api_proxy.Persistence.Items.{WorkflowItem, workflow_item}
use api_proxy.Persistence.Dynamo.{Table}
use api_proxy.Repository.{RepositoryOptions}
use api_proxy.Repository.Commit.{Evolves}
use api_proxy.Repository.Service.{Service}
use api_proxy.Repository.Clock.{Clock}
use api_proxy.Lifecycle.{LifecycleState}
use api_proxy.Waiter.{WaitResult, terminal, timed_out, aborted, missing}
use api_proxy.Api.KeyStore.{ResolvedCaller}
use api_proxy.Api.Problems.{HttpProblem}

pub data Method : Type 0 where
  get post : Method
  other_method : Text → Method

-- The handler that Fastify's router finds for a request.
pub data Route : Type 0 where
  process_route : Route
  lookup_route : (request_id : Text) → Route
  live_route : Route
  ready_route : Route
  no_route : Route

-- An error of the framework: its `code`, its `statusCode` and its `message`.
pub record FastifyError : Type 0 where
  pub code : Option Text
  pub status_code : Option ℕ
  pub message : Text

-- A header is `none` unless it is one text. The body is what the framework makes of it, within the
-- limit that it is given.
pub record Request : Type 0 where
  pub method : Method
  pub url : Text
  pub route : Route
  pub authorization : Option Text
  pub idempotency_key : Option Text
  pub body : Result FastifyError Json

pub data Body : Type 0 where
  problem : HttpProblem → Body
  completed : (request_id : Text) (result : Option Json) → Body
  failed : (request_id : Text) (code : ErrorCode) (message : Text) → Body
  processing : (request_id poll_url : Text) (retry_after_seconds : ℕ) → Body
  live : Bool → Body
  ready : Bool → LifecycleState → Body
  route_not_found : Body

-- `retry_after` is the header.
pub record Reply : Type 0 where
  pub status : ℕ
  pub retry_after : Option ℕ
  pub body : Body

-- The values of the configuration that the handlers read.
pub record Settings : Type 0 where
  pub public_base_url : Text
  pub sync_wait_timeout_ms : ℕ
  pub deadline_ms : ℕ
  pub max_request_payload_bytes : ℕ

module _ {platform : Platform} {options : RepositoryOptions} (s : Service platform options) where
  -- The interface ApiKeyStore. A caller's tenant meets the schema of the credential document.
  pub record ApiKeyStore : Type 0 where
    pub resolve : Text → Exec s.World Thrown (Option ResolvedCaller)
    pub resolve_lem :
        (presented : Text) (w : s.World)
        → Evolves platform options (s.table w) (s.table (resolve presented w).1)
    pub resolve_valid :
        (presented : Text) (w : s.World) (c : ResolvedCaller)
        → (resolve presented w).0 ≡ ok (some c)
        → tenant_id_schema c.tenant_id ≡ true

  -- What a result of a wait that leaves the table `t` says of the workflow.
  abbrev pub WaitedFor : Table → Text → WaitResult → Type 0
  WaitedFor t request_id (terminal workflow n) =
      (is_terminal workflow.status ≡ true)
      × ((i : WorkflowItem) × (t (workflow_key request_id) ≡ some (workflow_item i))
          × (i.document ≡ workflow))
  WaitedFor t request_id (timed_out n) = Unit {0}
  WaitedFor t request_id (aborted n) = Unit {0}
  WaitedFor t request_id (missing n) = Unit {0}

  -- The interface WorkflowWaiter, with the signal of the request.
  pub record WorkflowWaiter : Type 0 where
    pub wait : (request_id : Text) (deadline_at : ℕ) → Exec s.World Thrown WaitResult
    pub wait_lem :
        (request_id : Text) (deadline_at : ℕ) (w : s.World)
        → Evolves platform options (s.table w) (s.table (wait request_id deadline_at w).1)
    pub wait_waited :
        (request_id : Text) (deadline_at : ℕ) (w : s.World) (r : WaitResult)
        → (wait request_id deadline_at w).0 ≡ ok r
        → WaitedFor (s.table (wait request_id deadline_at w).1) request_id r

  -- `randomUUID()`
  pub record Randomness : Type 0 where
    pub random_uuid : s.World → Text × s.World
    pub random_uuid_lem : (w : s.World) → s.table (random_uuid w).1 ≡ s.table w
    pub random_uuid_valid : (w : s.World) → platform.is_uuid (random_uuid w).0 ≡ true

  pub record AppDependencies : Type 0 where
    pub settings : Settings
    pub clock : Clock platform options s
    pub api_keys : ApiKeyStore
    pub waiter : WorkflowWaiter
    pub randomness : Randomness
    -- `lifecycle.state`, at the time when it is read
    pub lifecycle : s.World → LifecycleState
