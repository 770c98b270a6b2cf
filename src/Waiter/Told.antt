-- ===== src/Waiter/Told.antt =====
-- waiter.ts: what each part of a wait tells of the workflow, from the world where the wait began.
use api_proxy.Base.{
  ℕ, zero, suc, ◌+◌, ◌-◌, ◌≡◌, ◌≤◌, refl, sym, ap, ◌∙◌, subst, true, false, Text, Option, none,
  some, leb, leb→le, Result, ok, err, pure,
}
use api_proxy.Base.Triple.{
  Ends, Triple, Triple-pure, Triple-throw, Triple-if, Triple-try_catch, Triple-bind,
}
use api_proxy.Contracts.Errors.{Thrown}
use api_proxy.Contracts.Ids.{Platform}
use api_proxy.Contracts.Workflow.{WorkflowRecord, is_terminal}
use api_proxy.Persistence.Keys.{workflow_key}
use api_proxy.Persistence.Items.{WorkflowItem, workflow_item}
use api_proxy.Persistence.Dynamo.{Table}
use api_proxy.Repository.{RepositoryOptions}
use api_proxy.Repository.Commit.{Evolves, here, Evolves-trans}
use api_proxy.Repository.Commit.Terminal.{terminal_forever}
use api_proxy.Repository.Service.{Service}
use api_proxy.Repository.Clock.{Clock, read_clock}
use api_proxy.Repository.Methods.{get_workflow}
use api_proxy.Repository.Outcomes.Get.{Served, get_workflow-Served}
use api_proxy.Waiter.{
  Floats, PollingSettings, WaitResult, terminal, timed_out, aborted, missing, is_abort_error, Timer,
}
use api_proxy.Waiter.Poll.{
  Round, finished, again, Waiting, jitter, ended, sleep_failed, sleep_some, still_processing,
  after_read, poll_once, poll, wait_for_terminal_state,
}

module _ {platform : Platform} {options : RepositoryOptions} {s : Service platform options}
    {floats : Floats} (clock : Clock platform options s) (timer : Timer s floats)
    (polling : PollingSettings floats) (request_id : Text) (deadline_at : ℕ) (start : Table)
    (Late : s.World → Type 0) where
  open s use {World}
  open floats use {Float}

  -- The item of the workflow at a moment between the start and the world `v`.
  abbrev pub WasStored : (WorkflowRecord → Type 0) → World → Type 0
  WasStored P v =
      (t : Table) × (i : WorkflowItem) × Evolves platform options start t
      × Evolves platform options t (s.table v)
      × (t (workflow_key request_id) ≡ some (workflow_item i))
      × P i.document

  -- What a result says in the world `v` that the wait leaves.
  abbrev pub Told : WaitResult → World → Type 0
  Told (terminal workflow n) v =
      (is_terminal workflow.status ≡ true)
      × ((i : WorkflowItem) × (s.table v (workflow_key request_id) ≡ some (workflow_item i))
          × (i.document ≡ workflow))
  Told (missing n) v =
      (t : Table) × Evolves platform options start t
      × Evolves platform options t (s.table v)
      × (t (workflow_key request_id) ≡ none)
  Told (timed_out n) v = WasStored (λ d. is_terminal d.status ≡ false) v × Late v
  Told (aborted n) v = Unit {0}

  module _ (late_read : (w : World) → deadline_at ≤ (clock.read w).0 → Late (clock.read w).1)
      (late_kept : (w : World) → Late w → Late (clock.read w).1) where
    read_clock-Told : (r : WaitResult) (v : World) → Told r v → Told r (clock.read v).1
    read_clock-Told (terminal d n) v (e, (i, k, same)) = (
      e,
      (
        i,
        terminal_forever platform options (s.table v) _ request_id i k
            (subst (λ x. is_terminal x.status ≡ true) (sym same) e) (clock.read_lem v),
        same,
      ),
    )
    read_clock-Told (missing n) v (t, a, b, k) =
        (t, a, Evolves-trans platform options b (clock.read_lem v), k)
    read_clock-Told (timed_out n) v ((t, i, a, b, k, p), late) =
        ((t, i, a, Evolves-trans platform options b (clock.read_lem v), k, p), late_kept v late)
    read_clock-Told (aborted n) v h = tt

    abbrev Since : World → Type 0
    Since w = Evolves platform options start (s.table w)

    abbrev Anyhow : Thrown → World → Type 0
    Anyhow e w = Unit {0}

    abbrev RoundTold : Round → World → Type 0
    RoundTold (finished r) w = Told r w
    RoundTold again w = Since w

    Ends-Anyhow :
        {A : Type 0} (r : Result Thrown A) (v : World)
        → Since v
        → Ends (λ (a : A). Since) Anyhow r v
    Ends-Anyhow (ok a) v h = h
    Ends-Anyhow (err e) v h = tt

    read_clock-Since :
        {E : Thrown → World → Type 0} → Triple Since (read_clock clock) (λ n. Since) E
    read_clock-Since = record { at = λ w h. Evolves-trans platform options h (clock.read_lem w) }

    ended-Told :
        {P : World → Type 0} (r : WaitResult)
        → ((w : World) → P w → Told r w)
        → Triple P (ended clock timer r) RoundTold Anyhow
    unfolding ended
    ended-Told r k =
        Triple-bind (λ n w. Told r w) _ _ (record { at = λ w h. read_clock-Told r w (k w h) })
          (λ n. Triple-pure (finished r) (λ w h. h))

    jitter-Since : (x y : Float) → Triple Since (jitter clock timer x y) (λ z. Since) Anyhow
    unfolding jitter
    jitter-Since x y =
        Triple-if (floats.le y (floats.of_ℕ 0)) _ _ (λ _. Triple-pure x (λ w h. h))
          (λ _.
            Triple-bind (λ z. Since) _ _
              (record {
                at = λ w h. subst (Evolves platform options start) (sym (timer.random_lem w)) h;
              })
              (λ z. Triple-pure _ (λ w h. h)))

    sleep_failed-Told :
        (n : ℕ) (e : Thrown)
        → Triple (λ w. Unit {0}) (sleep_failed clock timer n e) RoundTold Anyhow
    unfolding sleep_failed
    sleep_failed-Told n e =
        Triple-if (is_abort_error e) _ _ (λ _. ended-Told (aborted n) (λ w h. tt))
          (λ _. Triple-throw e (λ w h. tt))

    sleep_some-Told :
        (delay : Float) (n remaining : ℕ)
        → Triple Since
            (sleep_some clock timer polling request_id deadline_at delay n remaining)
            RoundTold
            Anyhow
    unfolding sleep_some
    sleep_some-Told delay n remaining =
        Triple-bind (λ z. Since) _ _ (jitter-Since _ _)
          (λ base.
            Triple-try_catch (λ a. Since) Anyhow _ _ _
              (record {
                at =
                    λ w h. Ends-Anyhow _ _ (Evolves-trans platform options h (timer.sleep_lem _ w));
              })
              (λ a. Triple-pure again (λ w h. h)) (λ e. sleep_failed-Told n e))

    abbrev Unfinished : World → Type 0
    Unfinished w = Since w × WasStored (λ d. is_terminal d.status ≡ false) w

    still_processing-Told :
        (delay : Float) (n : ℕ)
        → Triple Unfinished
            (still_processing clock timer polling request_id deadline_at delay n)
            RoundTold
            Anyhow
    unfolding still_processing
    still_processing-Told delay n =
        Triple-bind (λ now w. Unfinished w × (deadline_at ≤ now → Late w)) _ _
          (record {
            at = λ w (h, (t, i, a, b, k, p)). (
              (
                Evolves-trans platform options h (clock.read_lem w),
                (t, i, a, Evolves-trans platform options b (clock.read_lem w), k, p),
              ),
              late_read w,
            );
          })
          (λ now.
            Triple-if (leb deadline_at now) _ _
              (λ late. ended-Told (timed_out n) (λ w h. (h.0.1, h.1 (leb→le deadline_at now late))))
              (λ _. record {
                at = λ w h. (sleep_some-Told delay n (deadline_at - now)).at w h.0.0;
              }))

    abbrev Fetched : Option WorkflowRecord → World → Type 0
    Fetched none w = Since w × (s.table w (workflow_key request_id) ≡ none)
    Fetched (some d) w =
        Since w
        × ((i : WorkflowItem) × (s.table w (workflow_key request_id) ≡ some (workflow_item i))
            × (i.document ≡ d))

    Served-Fetched :
        (w v : World) (o : Option WorkflowRecord)
        → Since w
        → Served platform options s request_id w v o
        → Fetched o v
    Served-Fetched w v none h (t, ev, same, e) = (
      subst (Evolves platform options start) (sym same) (Evolves-trans platform options h ev),
      ap (λ (f : Table). f (workflow_key request_id)) same ∙ e,
    )
    Served-Fetched w v (some d) h (t, i, ev, same, e, k) = (
      subst (Evolves platform options start) (sym same) (Evolves-trans platform options h ev),
      (i, ap (λ (f : Table). f (workflow_key request_id)) same ∙ e, k),
    )

    get_workflow-Ends :
        (r : Result Thrown (Option WorkflowRecord)) (w v : World)
        → Since w
        → get_workflow platform options s request_id w ≡ (r, v)
        → Ends Fetched Anyhow r v
    get_workflow-Ends (err e) w v h k = tt
    get_workflow-Ends (ok o) w v h k =
        let e : (get_workflow platform options s request_id w).0 ≡ ok o = ap (λ x. x.0) k in
        subst (Fetched o) (ap (λ (x : Result Thrown (Option WorkflowRecord) × World). x.1) k)
          (Served-Fetched w _ o h (get_workflow-Served platform options s request_id w o e))

    get_workflow-Fetched : Triple Since (get_workflow platform options s request_id) Fetched Anyhow
    get_workflow-Fetched = record { at = λ w h. get_workflow-Ends _ w _ h refl }

    still_of :
        (d : WorkflowRecord) (w : World)
        → is_terminal d.status ≡ false
        → Fetched (some d) w
        → Unfinished w
    still_of d w e h =
        let (i, k, same) = h.1 in
        (h.0, (s.table w, i, h.0, here, k, subst (λ x. is_terminal x.status ≡ false) (sym same) e))

    after_read-Told :
        (delay : Float) (n : ℕ) (o : Option WorkflowRecord)
        → Triple
            (Fetched o)
            (after_read clock timer polling request_id deadline_at delay n o)
            RoundTold
            Anyhow
    unfolding after_read
    after_read-Told delay n none = ended-Told (missing n) (λ w h. (s.table w, h.0, here, h.1))
    after_read-Told delay n (some d) =
        Triple-if (is_terminal d.status) _ _ (λ e. ended-Told (terminal d n) (λ w h. (e, h.1)))
          (λ e. record { at = λ w h. (still_processing-Told delay n).at w (still_of d w e h) })

    poll_once-Told :
        (delay : Float) (n : ℕ)
        → Triple Since
            (poll_once clock timer polling request_id deadline_at delay n)
            RoundTold
            Anyhow
    unfolding poll_once
    poll_once-Told delay n =
        Triple-bind (λ gone. Since) _ _ (record { at = λ w h. h })
          (λ gone.
            Triple-if gone _ _ (λ _. ended-Told (aborted n) (λ w h. tt))
              (λ _.
                Triple-bind Fetched _ _ get_workflow-Fetched
                  (λ o. after_read-Told delay (n + 1) o)))

    abbrev MaybeTold : Option WaitResult → World → Type 0
    MaybeTold none w = Unit {0}
    MaybeTold (some r) w = Told r w

    continued-Told :
        (rest : Waiting clock timer (Option WaitResult)) (r : Round)
        → Triple Since rest MaybeTold Anyhow
        → Triple
            (RoundTold r)
            (elim r [ finished x ↦ pure (some x) | again ↦ rest ])
            MaybeTold
            Anyhow
    continued-Told rest (finished x) k = Triple-pure (some x) (λ w h. h)
    continued-Told rest again k = k

    poll-Told :
        (fuel : ℕ) (delay : Float) (n : ℕ)
        → Triple Since
            (poll clock timer polling request_id deadline_at fuel delay n)
            MaybeTold
            Anyhow
    unfolding poll
    poll-Told zero delay n = Triple-pure none (λ w h. tt)
    poll-Told (suc fuel) delay n =
        Triple-bind RoundTold _ _ (poll_once-Told delay n)
          (λ r. continued-Told _ r (poll-Told fuel _ (n + 1)))

    pub wait_for_terminal_state-Told :
        (fuel : ℕ)
        → Triple Since
            (wait_for_terminal_state clock timer polling request_id deadline_at fuel)
            MaybeTold
            Anyhow
    unfolding wait_for_terminal_state
    wait_for_terminal_state-Told fuel =
        Triple-bind (λ n. Since) _ _ read_clock-Since
          (λ n. poll-Told fuel polling.initial_delay_ms 0)
