-- ===== src/Waiter.antt =====
-- packages/persistence/src/waiter.ts, and `jitter` of packages/contracts/src/time.ts.
pub mod Poll
pub mod Told
pub mod Found
pub mod Ends
pub mod Safety
use api_proxy.Base.{
  ℕ, ◌≡◌, ◌≤◌, ◌<◌, Bool, Text, codes, text_eq, true, false, if◌then◌else◌, Result, ok,
}
use api_proxy.Contracts.Errors.{
  Thrown, app_error, conditional_check_failed_exception, transaction_canceled_exception,
  other_error,
}
use api_proxy.Contracts.Ids.{Platform}
use api_proxy.Contracts.Workflow.{WorkflowRecord}
use api_proxy.Persistence.Keys.{TableKey}
use api_proxy.Repository.{RepositoryOptions}
use api_proxy.Repository.Commit.{Evolves}
use api_proxy.Repository.Service.{Service}
use api_proxy.Repository.Clock.{Clock}

-- The numbers of JavaScript, as the waiter computes with them.
pub record Floats : Type 1 where
  pub Float : Type 0
  pub of_ℕ : ℕ → Float
  pub add : Float → Float → Float
  pub sub : Float → Float → Float
  pub mul : Float → Float → Float
  pub round : Float → Float
  pub min : Float → Float → Float
  pub max : Float → Float → Float
  -- `x <= y`
  pub le : Float → Float → Bool

pub record PollingSettings (floats : Floats) : Type 0 where
  pub initial_delay_ms : floats.Float
  pub max_delay_ms : floats.Float
  pub backoff_factor : floats.Float
  pub jitter_ratio : floats.Float

-- `waitedMs`, which is only logged, is left out.
pub data WaitResult : Type 0 where
  terminal : WorkflowRecord → (attempts : ℕ) → WaitResult
  timed_out : (attempts : ℕ) → WaitResult
  aborted : (attempts : ℕ) → WaitResult
  missing : (attempts : ℕ) → WaitResult

-- `error instanceof AbortError`
unfoldable pub is_abort_error : Thrown → Bool
is_abort_error (other_error name message) = text_eq name (codes "AbortError")
is_abort_error (app_error e) = false
is_abort_error (conditional_check_failed_exception m) = false
is_abort_error (transaction_canceled_exception rs m) = false

-- `Math.random`, the abort signal, and `clock.sleep`, during which other tasks go on.
pub record Timer {platform : Platform} {options : RepositoryOptions} (s : Service platform options)
    (floats : Floats) : Type 0 where
  pub random : s.World → floats.Float × s.World
  pub is_aborted : s.World → Bool
  pub sleep : floats.Float → s.World → Result Thrown (Unit {0}) × s.World
  pub random_lem : (w : s.World) → s.table (random w).1 ≡ s.table w
  pub sleep_lem :
      (d : floats.Float) (w : s.World)
      → Evolves platform options (s.table w) (s.table (sleep d w).1)

-- Time as the clock reads it: it does not go back, and a timer takes a millisecond at least.
pub record Progress {platform : Platform} {options : RepositoryOptions}
    {s : Service platform options} {floats : Floats} (clock : Clock platform options s)
    (timer : Timer s floats) : Type 0 where
  pub time : s.World → ℕ
  pub read_after : (w : s.World) → time w ≤ (clock.read w).0
  pub read_before : (w : s.World) → (clock.read w).0 ≤ time (clock.read w).1
  pub get_time : (k : TableKey) (w : s.World) → time w ≤ time (s.get k w).1
  pub random_time : (w : s.World) → time w ≤ time (timer.random w).1
  pub sleep_time :
      (d : floats.Float) (w : s.World)
      → (timer.sleep d w).0 ≡ ok tt
      → time w < time (timer.sleep d w).1
