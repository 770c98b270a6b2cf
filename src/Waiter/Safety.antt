-- ===== src/Waiter/Safety.antt =====
-- waiter.ts against the transitions: a wait makes none of its own.
use api_proxy.Base.{
  ℕ, zero, suc, ◌+◌, sym, subst, Bool, Text, Option, none, some, leb, pure, throw, try_catch,
  if◌then◌else◌,
}
use api_proxy.Contracts.Errors.{Thrown}
use api_proxy.Contracts.Ids.{Platform}
use api_proxy.Contracts.Workflow.{WorkflowRecord, is_terminal}
use api_proxy.Repository.{RepositoryOptions}
use api_proxy.Repository.Commit.{Evolves, here}
use api_proxy.Repository.Service.{Service}
use api_proxy.Repository.Clock.{Clock}
use api_proxy.Repository.Safety.{Safe, Safe-pure, Safe-throw, Safe-if, Safe-try_catch}
use api_proxy.Repository.Safety.Methods.{get_workflow-Safe}
use api_proxy.Repository.Safety.Chains.{Safe-read_clock}
use api_proxy.Waiter.{Floats, PollingSettings, WaitResult, is_abort_error, Timer, aborted}
use api_proxy.Waiter.Poll.{
  Round, finished, again, Waiting, draw, jitter, ended, sleep_failed, sleep_some, still_processing,
  after_read, poll_once, poll, wait_for_terminal_state,
}

module _ {platform : Platform} {options : RepositoryOptions} {s : Service platform options}
    {floats : Floats} (clock : Clock platform options s) (timer : Timer s floats) where
  open floats use {Float}

  abbrev IsSafe : {A : Type 0} → Waiting clock timer A → Type 0
  IsSafe m = Safe platform options s m

  chain :
      {A B : Type 0} {m : Waiting clock timer A} {f : A → Waiting clock timer B}
      → IsSafe m
      → ((a : A) → IsSafe (f a))
      → IsSafe (try_catch m f throw)
  chain k q = Safe-try_catch platform options s _ _ _ k q (λ e. Safe-throw platform options s e)

  branch :
      {A : Type 0} (b : Bool) {m n : Waiting clock timer A}
      → IsSafe m
      → IsSafe n
      → IsSafe (if b then m else n)
  branch b k l = Safe-if platform options s b _ _ k l

  ended-Safe : (r : WaitResult) → IsSafe (ended clock timer r)
  unfolding ended
  ended-Safe r = chain (Safe-read_clock s clock) (λ n. Safe-pure platform options s _)

  draw-Safe : IsSafe (draw clock timer)
  draw-Safe = record {
    at = λ w. subst (Evolves platform options (s.table w)) (sym (timer.random_lem w)) here;
  }

  jitter-Safe : (x y : Float) → IsSafe (jitter clock timer x y)
  unfolding jitter
  jitter-Safe x y =
      branch (floats.le y (floats.of_ℕ 0)) (Safe-pure platform options s x)
        (chain draw-Safe (λ z. Safe-pure platform options s _))

  sleep_failed-Safe : (n : ℕ) (e : Thrown) → IsSafe (sleep_failed clock timer n e)
  unfolding sleep_failed
  sleep_failed-Safe n e =
      branch (is_abort_error e) (ended-Safe (aborted n)) (Safe-throw platform options s e)

  module _ (polling : PollingSettings floats) (request_id : Text) (deadline_at : ℕ) where
    sleep_some-Safe :
        (delay : Float) (n remaining : ℕ)
        → IsSafe (sleep_some clock timer polling request_id deadline_at delay n remaining)
    unfolding sleep_some
    sleep_some-Safe delay n remaining = chain (jitter-Safe _ _) (λ base.
        Safe-try_catch platform options s _ _ _ (record { at = λ w. timer.sleep_lem _ w })
          (λ a. Safe-pure platform options s again) (sleep_failed-Safe n))

    still_processing-Safe :
        (delay : Float) (n : ℕ)
        → IsSafe (still_processing clock timer polling request_id deadline_at delay n)
    unfolding still_processing
    still_processing-Safe delay n =
        chain (Safe-read_clock s clock)
          (λ now. branch (leb deadline_at now) (ended-Safe _) (sleep_some-Safe delay n _))

    after_read-Safe :
        (delay : Float) (n : ℕ) (o : Option WorkflowRecord)
        → IsSafe (after_read clock timer polling request_id deadline_at delay n o)
    unfolding after_read
    after_read-Safe delay n none = ended-Safe _
    after_read-Safe delay n (some d) =
        branch (is_terminal d.status) (ended-Safe _) (still_processing-Safe delay n)

    poll_once-Safe :
        (delay : Float) (n : ℕ)
        → IsSafe (poll_once clock timer polling request_id deadline_at delay n)
    unfolding poll_once
    poll_once-Safe delay n =
        chain (record { at = λ w. here })
          (λ gone. branch gone (ended-Safe _) (
            chain (get_workflow-Safe platform options s request_id)
              (after_read-Safe delay (n + 1))))

    poll-Safe :
        (fuel n : ℕ) (delay : Float)
        → IsSafe (poll clock timer polling request_id deadline_at fuel delay n)
    unfolding poll
    poll-Safe zero n delay = Safe-pure platform options s none
    poll-Safe (suc fuel) n delay =
        chain (poll_once-Safe delay n) (λ r. continued r (poll-Safe fuel (n + 1) _))
      where
        continued :
            (r : Round) {rest : Waiting clock timer (Option WaitResult)}
            → IsSafe rest
            → IsSafe (elim r [ finished x ↦ pure (some x) | again ↦ rest ])
        continued (finished x) k = Safe-pure platform options s (some x)
        continued again k = k

    pub wait-Safe :
        (fuel : ℕ)
        → Safe platform options s
            (wait_for_terminal_state clock timer polling request_id deadline_at fuel)
    unfolding wait_for_terminal_state
    wait-Safe fuel = chain (Safe-read_clock s clock) (λ n. poll-Safe fuel 0 _)
