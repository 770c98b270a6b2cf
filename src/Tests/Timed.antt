-- ===== src/Tests/Timed.antt =====
-- An in-memory table with a clock that only sleeping moves, and a finished workflow in it.
use api_proxy.Base.{
  ℕ, ◌+◌, ◌-◌, ◌*◌, ◌<◌, refl, false, Text, codes, none, some, ok, leb, if◌then◌else◌, arith,
}
use Prim.Native.Nat.{min, max}
use native.Mathlib.Nat.{le_refl}
use api_proxy.Contracts.Errors.{ErrorCode, FailureClass}
use api_proxy.Contracts.Json.{Json}
use api_proxy.Contracts.Workflow.{WorkflowRecord, WorkflowStatus}
use api_proxy.Persistence.Keys.{workflow_key, same_key}
use api_proxy.Persistence.Items.{workflow_item}
use api_proxy.Persistence.Dynamo.{Table}
use api_proxy.Repository.Commit.{here}
use api_proxy.Repository.Service.{Service}
use api_proxy.Repository.Clock.{Clock}
use api_proxy.Waiter.{Floats, PollingSettings, Timer, Progress}
use api_proxy.Tests.Memory.{platform, options, update, transact, update_lem, transact_lem}

abbrev pub timed_memory : Service platform options
timed_memory = record {
  World = Table × ℕ;
  table = λ w. w.0;
  get = λ k w. (ok (w.0 k), w);
  update = λ x w. ((update x w.0).0, ((update x w.0).1, w.1));
  transact = λ xs w. ((transact xs w.0).0, ((transact xs w.0).1, w.1));
  get_lem = λ k w. (w.0, here, (refl, refl));
  update_lem = λ x w. (w.0, here, update_lem x w.0);
  transact_lem = λ xs w. (w.0, here, transact_lem xs w.0);
}

abbrev pub clock : Clock platform options timed_memory
clock = record { read = λ w. (w.1, w); read_lem = λ w. here }

-- Whole milliseconds.
abbrev pub floats : Floats
floats = record {
  Float = ℕ;
  of_ℕ = λ n. n;
  add = λ a b. a + b;
  sub = λ a b. a - b;
  mul = λ a b. a * b;
  round = λ a. a;
  min = min;
  max = max;
  le = leb;
}

abbrev pub timer : Timer timed_memory floats
timer = record {
  random = λ w. (1, w);
  is_aborted = λ w. false;
  sleep = λ d w. (ok tt, (w.0, w.1 + d + 1));
  random_lem = λ w. refl;
  sleep_lem = λ d w. here;
}

pub later : (n d : ℕ) → n < n + d + 1
later n d = omega arith

abbrev pub progress : Progress clock timer
progress = record {
  time = λ w. w.1;
  read_after = λ w. le_refl w.1;
  read_before = λ w. le_refl w.1;
  get_time = λ k w. le_refl w.1;
  random_time = λ w. le_refl w.1;
  sleep_time = λ d w e. later w.1 d;
}

abbrev pub polling : PollingSettings floats
polling = record {
  initial_delay_ms = 50;
  max_delay_ms = 1_000;
  backoff_factor = 2;
  jitter_ratio = 0;
}

abbrev pub request : Text
request = codes "6f1c2d3e-0000-4000-8000-000000000001"

abbrev pub finished_workflow : WorkflowRecord
finished_workflow = record {
  request_id = request;
  tenant_id = codes "acme";
  idempotency_key = codes "order-0001";
  status = WorkflowStatus.failed;
  workflow_version = 1;
  state_version = 2;
  payload_hash = codes "0000000000000000000000000000000000000000000000000000000000000000";
  input = Json.null;
  created_at = 1000;
  updated_at = 2000;
  sync_deadline_at = some 9000;
  business_deadline_at = some 60000;
  result = none;
  error = some (record {
    code = ErrorCode.unsupported_currency;
    message = codes "currency XXX is not supported";
    failure_class = FailureClass.non_retryable;
  });
  expires_at = none;
}

unfoldable pub finished_table : Table
unfolding same_key
finished_table k =
    if same_key k (workflow_key request)
    then some (workflow_item (record { document = finished_workflow; gsi2 = none }))
    else none
