-- ===== src/Waiter/Poll.antt =====
-- waiter.ts: one round of the loop, and the loop.
use api_proxy.Base.{
  ℕ, zero, suc, ◌+◌, ◌-◌, Bool, Text, Option, none, some, leb, if◌then◌else◌, ok, Exec, pure, throw,
  try_catch, ◌>>=◌, ◌>>◌,
}
use api_proxy.Contracts.Errors.{Thrown}
use api_proxy.Contracts.Ids.{Platform}
use api_proxy.Contracts.Workflow.{WorkflowRecord, is_terminal}
use api_proxy.Repository.{RepositoryOptions}
use api_proxy.Repository.Service.{Service}
use api_proxy.Repository.Clock.{Clock, read_clock}
use api_proxy.Repository.Methods.{get_workflow}
use api_proxy.Waiter.{
  Floats, PollingSettings, WaitResult, terminal, timed_out, aborted, missing, is_abort_error, Timer,
}

-- A round of the loop ends it, or it goes on.
pub data Round : Type 0 where
  finished : WaitResult → Round
  again : Round

module _ {platform : Platform} {options : RepositoryOptions} {s : Service platform options}
    {floats : Floats} (clock : Clock platform options s) (timer : Timer s floats) where
  open s use {World}
  open floats use {Float, of_ℕ, add, sub, mul, round, min, max, le}

  abbrev pub Waiting : Type 0 → Type 0
  Waiting A = Exec World Thrown A

  abbrev pub draw : Waiting Float
  draw w = let (x, v) = timer.random w in (ok x, v)

  abbrev pub read_signal : Waiting Bool
  read_signal w = (ok (timer.is_aborted w), w)

  unfoldable pub jitter : Float → Float → Waiting Float
  unfolding pure
  jitter base ratio = if le ratio (of_ℕ 0) then pure base else (do
    x ← draw
    pure (max (of_ℕ 0) (round (add base (mul (sub (mul x (of_ℕ 2)) (of_ℕ 1)) (mul base ratio))))))

  -- A result, with the clock read for `waitedMs`.
  unfoldable pub ended : WaitResult → Waiting Round
  unfolding pure
  ended r = read_clock clock >> pure (finished r)

  unfoldable pub sleep_failed : ℕ → Thrown → Waiting Round
  unfolding ended throw
  sleep_failed attempts e = if is_abort_error e then ended (aborted attempts) else throw e

  module _ (polling : PollingSettings floats) (request_id : Text) (deadline_at : ℕ) where
    -- `remaining` is `deadlineAt - now`, which is positive.
    unfoldable pub sleep_some : Float → ℕ → ℕ → Waiting Round
    unfolding jitter sleep_failed pure
    sleep_some delay attempts remaining = do
      base ← jitter delay polling.jitter_ratio
      try_catch (timer.sleep (min base (of_ℕ remaining))) (λ _. pure again) (sleep_failed attempts)

    unfoldable pub still_processing : Float → ℕ → Waiting Round
    unfolding sleep_some ended
    still_processing delay attempts = do
      now ← read_clock clock
      if leb deadline_at now
          then ended (timed_out attempts)
          else sleep_some delay attempts (deadline_at - now)

    unfoldable pub after_read : Float → ℕ → Option WorkflowRecord → Waiting Round
    unfolding still_processing ended
    after_read delay attempts none = ended (missing attempts)
    after_read delay attempts (some workflow) =
        if is_terminal workflow.status
        then ended (terminal workflow attempts)
        else still_processing delay attempts

    -- `attempts` is the count before the round.
    unfoldable pub poll_once : Float → ℕ → Waiting Round
    unfolding after_read ended
    poll_once delay attempts = do
      gone ← read_signal
      if gone
          then ended (aborted attempts)
          else get_workflow platform options s request_id >>= after_read delay (attempts + 1)

    abbrev next_delay : Float → Float
    next_delay delay = min (mul delay polling.backoff_factor) polling.max_delay_ms

    -- `none` means that the fuel ran out.
    unfoldable pub poll : ℕ → Float → ℕ → Waiting (Option WaitResult)
    unfolding poll_once pure
    poll zero delay attempts = pure none
    poll (suc fuel) delay attempts = do
      round ← poll_once delay attempts
      elim round [
        | finished r ↦ pure (some r)
        | again ↦ poll fuel (next_delay delay) (attempts + 1)
      ]

    -- `waitForTerminalState`, whose first reading of the clock serves `waitedMs`.
    unfoldable pub wait_for_terminal_state : ℕ → Waiting (Option WaitResult)
    unfolding poll
    wait_for_terminal_state fuel = read_clock clock >> poll fuel polling.initial_delay_ms 0
