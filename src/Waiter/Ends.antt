-- ===== src/Waiter/Ends.antt =====
-- How long a wait goes on.
use api_proxy.Base.{
  ℕ, zero, suc, ◌+◌, ◌-◌, ◌≡◌, ◌≢◌, ◌≤◌, ◌<◌, refl, Text, Option, none, some, leb, Result, ok, err,
  pure, lift, arith,
}
use api_proxy.Base.Triple.{
  Ends, Triple, Triple-pure, Triple-throw, Triple-if, Triple-try_catch, Triple-bind,
  Triple-returned,
}
use api_proxy.Contracts.Errors.{Thrown}
use api_proxy.Contracts.Ids.{Platform}
use api_proxy.Contracts.Workflow.{WorkflowRecord, is_terminal}
use api_proxy.Persistence.Keys.{workflow_key}
use api_proxy.Persistence.Items.{Item, decode_workflow}
use api_proxy.Repository.{RepositoryOptions}
use api_proxy.Repository.Service.{Service}
use api_proxy.Repository.Clock.{Clock}
use api_proxy.Repository.Methods.{get_workflow, decode_found, rethrow}
use api_proxy.Waiter.{
  Floats, PollingSettings, WaitResult, terminal, timed_out, aborted, missing, is_abort_error, Timer,
  Progress,
}
use api_proxy.Waiter.Poll.{
  Round, finished, again, Waiting, jitter, ended, sleep_failed, sleep_some, still_processing,
  after_read, poll_once, poll, wait_for_terminal_state,
}

module _ {platform : Platform} {options : RepositoryOptions} {s : Service platform options}
    {floats : Floats} (clock : Clock platform options s) (timer : Timer s floats)
    (progress : Progress clock timer) where
  open s use {World}
  open floats use {Float}
  open progress use {time}

  abbrev Anyhow : Thrown → World → Type 0
  Anyhow e w = Unit {0}

  abbrev From : ℕ → World → Type 0
  From n w = n ≤ time w

  Ends-From :
      {A : Type 0} (n : ℕ) (r : Result Thrown A) (v : World)
      → From n v
      → Ends (λ (a : A). From n) Anyhow r v
  Ends-From n (ok a) v h = h
  Ends-From n (err e) v h = tt

  get_workflow-From :
      (n : ℕ) (r : Text) → Triple (From n) (get_workflow platform options s r) (λ o. From n) Anyhow
  unfolding get_workflow rethrow lift
  get_workflow-From n r =
      Triple-try_catch (λ o. From n) (λ e. From n) _ _ _
        (Triple-bind (λ o. From n) _ _ (record { at = λ w h. got w (s.get (workflow_key r) w).0 h })
          (λ item. record {
            at = λ w h. lifted w (decode_found (decode_workflow platform) item) h;
          }))
        (λ o. Triple-pure o (λ w h. h)) (λ e. Triple-throw _ (λ w h. tt))
    where
      got :
          (w : World) (x : Result Thrown (Option Item))
          → From n w
          → Ends (λ (o : Option Item). From n) (λ e. From n) x (s.get (workflow_key r) w).1
      got w (ok o) h = omega (arith, progress.get_time (workflow_key r) w)
      got w (err e) h = omega (arith, progress.get_time (workflow_key r) w)

      lifted :
          (w : World) (x : Result Thrown (Option WorkflowRecord))
          → From n w
          → Ends (λ (o : Option WorkflowRecord). From n) (λ e. From n) x w
      lifted w (ok o) h = h
      lifted w (err e) h = h

  -- `n` is the time when the round began.
  module _ (polling : PollingSettings floats) (request_id : Text) (deadline_at : ℕ) where
    abbrev Later : ℕ → Round → World → Type 0
    Later n (finished r) w = Unit {0}
    Later n again w = (n < deadline_at) × (n < time w)

    ended-Later :
        {P : World → Type 0} (n : ℕ) (r : WaitResult)
        → Triple P (ended clock timer r) (Later n) Anyhow
    unfolding ended
    ended-Later n r =
        Triple-bind (λ x w. Unit {0}) _ _ (record { at = λ w h. tt })
          (λ x. Triple-pure (finished r) (λ w h. tt))

    jitter-From :
        (n : ℕ) (x y : Float) → Triple (From n) (jitter clock timer x y) (λ z. From n) Anyhow
    unfolding jitter
    jitter-From n x y =
        Triple-if (floats.le y (floats.of_ℕ 0)) _ _ (λ _. Triple-pure x (λ w h. h))
          (λ _.
            Triple-bind (λ z. From n) _ _
              (record { at = λ w h. omega (arith, progress.random_time w) })
              (λ z. Triple-pure _ (λ w h. h)))

    slept :
        (n : ℕ) (d : Float) (w : World) (r : Result Thrown (Unit {0}))
        → From n w
        → (timer.sleep d w).0 ≡ r
        → Ends (λ (a : Unit {0}) v. n < time v) Anyhow r (timer.sleep d w).1
    slept n d w (ok tt) h e = omega (arith, progress.sleep_time d w e)
    slept n d w (err x) h e = tt

    sleep_failed-Later :
        (n a : ℕ) (e : Thrown)
        → Triple (λ w. Unit {0}) (sleep_failed clock timer a e) (Later n) Anyhow
    unfolding sleep_failed
    sleep_failed-Later n a e =
        Triple-if (is_abort_error e) _ _ (λ _. ended-Later n (aborted a))
          (λ _. Triple-throw e (λ w h. tt))

    sleep_some-Later :
        (n a remaining : ℕ) (delay : Float)
        → n < deadline_at
        → Triple
            (From n)
            (sleep_some clock timer polling request_id deadline_at delay a remaining)
            (Later n)
            Anyhow
    unfolding sleep_some
    sleep_some-Later n a remaining delay early =
        Triple-bind (λ z. From n) _ _ (jitter-From n _ _)
          (λ base.
            Triple-try_catch (λ x v. n < time v) Anyhow _ _ _
              (record { at = λ w h. slept n _ w _ h refl })
              (λ x. Triple-pure again (λ w h. (early, h))) (λ e. sleep_failed-Later n a e))

    still_processing-Later :
        (n a : ℕ) (delay : Float)
        → Triple
            (From n)
            (still_processing clock timer polling request_id deadline_at delay a)
            (Later n)
            Anyhow
    unfolding still_processing
    still_processing-Later n a delay =
        Triple-bind (λ now w. (n ≤ now) × From n w) _ _
          (record {
            at = λ w h. (
              omega (arith, progress.read_after w),
              omega (arith, progress.read_after w, progress.read_before w),
            );
          })
          (λ now.
            Triple-if (leb deadline_at now) _ _ (λ _. ended-Later n (timed_out a))
              (λ early. record {
                at =
                    λ w h. (sleep_some-Later n a (deadline_at - now) delay (ground arith)).at w h.1;
              }))

    after_read-Later :
        (n a : ℕ) (delay : Float) (o : Option WorkflowRecord)
        → Triple
            (From n)
            (after_read clock timer polling request_id deadline_at delay a o)
            (Later n)
            Anyhow
    unfolding after_read
    after_read-Later n a delay none = ended-Later n (missing a)
    after_read-Later n a delay (some d) =
        Triple-if (is_terminal d.status) _ _ (λ _. ended-Later n (terminal d a))
          (λ _. still_processing-Later n a delay)

    poll_once-Later :
        (n a : ℕ) (delay : Float)
        → Triple
            (From n)
            (poll_once clock timer polling request_id deadline_at delay a)
            (Later n)
            Anyhow
    unfolding poll_once
    poll_once-Later n a delay =
        Triple-bind (λ gone. From n) _ _ (record { at = λ w h. h })
          (λ gone.
            Triple-if gone _ _ (λ _. ended-Later n (aborted a))
              (λ _.
                Triple-bind (λ o. From n) _ _ (get_workflow-From n request_id)
                  (λ o. after_read-Later n (a + 1) delay o)))

    abbrev Finished : Option WaitResult → World → Type 0
    Finished none w = ⊥
    Finished (some r) w = Unit {0}

    -- The fuel covers the milliseconds up to the deadline.
    abbrev Fuelled : ℕ → World → Type 0
    Fuelled fuel w = (deadline_at < time w + fuel) × (0 < fuel)

    continued-Finished :
        (rest : Waiting clock timer (Option WaitResult)) (n fuel : ℕ) (r : Round)
        → deadline_at < n + suc fuel
        → Triple (Fuelled fuel) rest Finished Anyhow
        → Triple (Later n r) (elim r [ finished x ↦ pure (some x) | again ↦ rest ]) Finished Anyhow
    continued-Finished rest n fuel (finished x) e k = Triple-pure (some x) (λ w h. tt)
    continued-Finished rest n fuel again e k = record {
      at = λ w h. k.at w (omega arith, omega arith);
    }

    poll-Finished :
        (fuel a : ℕ) (delay : Float)
        → Triple
            (Fuelled fuel)
            (poll clock timer polling request_id deadline_at fuel delay a)
            Finished
            Anyhow
    unfolding poll
    poll-Finished zero a delay = record { at = λ w h. absurd (omega arith) }
    poll-Finished (suc fuel) a delay = record {
      at = λ w h.
          (Triple-bind (Later (time w)) _ _ (poll_once-Later (time w) a delay)
              (λ r. continued-Finished _ (time w) fuel r h.0 (poll-Finished fuel (a + 1) _))).at
            w (omega arith);
    }

    wait-Finished :
        (fuel : ℕ)
        → Triple
            (Fuelled fuel)
            (wait_for_terminal_state clock timer polling request_id deadline_at fuel)
            Finished
            Anyhow
    unfolding wait_for_terminal_state
    wait-Finished fuel =
        Triple-bind (λ n. Fuelled fuel) _ _
          (record {
            at = λ w h. (omega (arith, progress.read_after w, progress.read_before w), h.1);
          })
          (λ n. poll-Finished fuel 0 polling.initial_delay_ms)

    -- A wait comes to an end: it never runs through more rounds than there are milliseconds from
    -- its beginning to the deadline, and one.
    pub wait_ends :
        (fuel : ℕ) (w : World)
        → deadline_at < time w + fuel
        → 0 < fuel
        → (wait_for_terminal_state clock timer polling request_id deadline_at fuel w).0 ≢ ok none
    wait_ends fuel w e f h = Triple-returned w none (wait-Finished fuel) (e, f) h
