-- ===== src/Worker/Safety.antt =====
-- The handler of apps/worker-a as transitions of Commit.
use api_proxy.Base.{Text, ◌≡◌, refl, subst, true, Option, none, some, is_some, ok, pure, try_catch}
use api_proxy.Contracts.Errors.{Thrown, AppError, permanent}
use api_proxy.Contracts.Ids.{Platform}
use api_proxy.Contracts.Workflow.{WorkflowRecord, StepId, is_terminal}
use api_proxy.Messaging.{RecordOutcome}
use api_proxy.Contracts.Messages.{WorkflowMessage}
use api_proxy.Persistence.Keys.{step_key}
use api_proxy.Repository.{RepositoryOptions, BeginStepResult, started, resumed, already_succeeded}
use api_proxy.Repository.Service.{Service}
use api_proxy.Repository.Clock.{Clock, timed}
use api_proxy.Repository.Methods.{begin_step}
use api_proxy.Repository.Safety.{Safe, Safe-pure, Safe-throw, Safe-try_catch}
use api_proxy.Repository.Safety.Methods.{
  get_workflow-Safe, begin_step-Safe, fail_if_processing-Safe,
}
use api_proxy.Repository.Safety.Advance.{
  claimed_forever, advance_step_with_outbox-Safe, Claims, begin-Claims,
}
use api_proxy.Repository.Safety.Chains.{
  Moves, Moves-if, try_catch-Moves, bind-Moves, lift-Moves, Safe-read_clock,
}
use api_proxy.Worker.Enrich.{CaseMapping}
use api_proxy.Messaging.Parse.{parse_workflow_message}
use api_proxy.Worker.Handler.{
  handle_record, enrich_workflow, enrich_failed, record_failure, after_claim, claim_step,
  after_read, handle_step, handle_message, after_advance,
}

module _ {platform : Platform} {options : RepositoryOptions} (s : Service platform options)
    (clock : Clock platform options s) (cases : CaseMapping) where
  pub enrich_workflow-Moves :
      (m : WorkflowMessage) (x : WorkflowRecord) (w : s.World)
      → is_some (s.table w (step_key m.request_id StepId.enrich)) ≡ true
      → Moves s (enrich_workflow s clock cases m x) w
  unfolding enrich_workflow
  enrich_workflow-Moves m x w h = lift-Moves s _ _ w (λ input _. lift-Moves s _ _ w (λ _ _.
      bind-Moves s _ _ w (clock.read_lem w) (λ at _.
        let v = (clock.read w).1 in
        bind-Moves s _ _ v
          (bind-Moves s _ _ v (clock.read_lem v) (λ now _.
            advance_step_with_outbox-Safe platform options s _ now (clock.read v).1 (refl, refl)
              (claimed_forever platform options m.request_id StepId.enrich _ _
                (claimed_forever platform options m.request_id StepId.enrich _ _ h
                  (clock.read_lem w))
                (clock.read_lem v))))
          (λ a _. (Safe-pure platform options s (after_advance a)).at _))))

  record_failure-Safe :
      (m : WorkflowMessage) (o : Option AppError) (e : Thrown)
      → Safe platform options s (record_failure s clock cases m o e)
  unfolding record_failure
  record_failure-Safe m none e = Safe-throw platform options s e
  record_failure-Safe m (some x) e =
      search (Safe-pure, Safe-throw, Safe-try_catch, Safe-read_clock, fail_if_processing-Safe) depth
        8

  enrich_failed-Safe :
      (m : WorkflowMessage) (e : Thrown) → Safe platform options s (enrich_failed s clock cases m e)
  unfolding enrich_failed
  enrich_failed-Safe m e = record_failure-Safe m (permanent e) e

  after_claim-Moves :
      (m : WorkflowMessage) (x : WorkflowRecord) (c : BeginStepResult) (w : s.World)
      → Claims platform options s m.request_id StepId.enrich (ok c) (s.table w)
      → Moves s (after_claim s clock cases m x c) w
  unfolding after_claim
  after_claim-Moves m x (already_succeeded step) w h = (Safe-pure platform options s _).at w
  after_claim-Moves m x (started step) w h =
      try_catch-Moves s _ _ _ w (enrich_workflow-Moves m x w h)
        (λ a _. (Safe-pure platform options s a).at _) (λ e _. (enrich_failed-Safe m e).at _)
  after_claim-Moves m x (resumed step previous) w h =
      try_catch-Moves s _ _ _ w (enrich_workflow-Moves m x w h)
        (λ a _. (Safe-pure platform options s a).at _) (λ e _. (enrich_failed-Safe m e).at _)

  pub timed_claim :
      (m : WorkflowMessage) (c : BeginStepResult) (w : s.World)
      → let a = timed clock (begin_step platform options s m.request_id StepId.enrich none) w in
        a.0 ≡ ok c → Claims platform options s m.request_id StepId.enrich (ok c) (s.table a.1)
  unfolding try_catch
  timed_claim m c w h =
      subst
        (λ r. Claims platform options s m.request_id StepId.enrich r (
          s.table
            (begin_step platform options s m.request_id StepId.enrich none (clock.read w).0
              (clock.read w).1).1))
        h
        (begin-Claims platform options s m.request_id StepId.enrich none (clock.read w).0
          (clock.read w).1)

  pub timed_claim-Safe :
      (m : WorkflowMessage)
      → Safe platform options s
          (timed clock (begin_step platform options s m.request_id StepId.enrich none))
  timed_claim-Safe m =
      Safe-try_catch platform options s _ _ _ (Safe-read_clock s clock)
        (begin_step-Safe platform options s m.request_id StepId.enrich none)
        (λ e. Safe-throw platform options s e)

  claim_step-Moves :
      (m : WorkflowMessage) (x : WorkflowRecord) (w : s.World)
      → Moves s (claim_step s clock cases m x) w
  unfolding claim_step
  claim_step-Moves m x w =
      bind-Moves s _ _ w ((timed_claim-Safe m).at w)
        (λ c h. after_claim-Moves m x c _ (timed_claim m c w h))

  after_read-Moves :
      (m : WorkflowMessage) (o : Option WorkflowRecord) (w : s.World)
      → Moves s (after_read s clock cases m o) w
  unfolding after_read
  after_read-Moves m none w = (Safe-pure platform options s _).at w
  after_read-Moves m (some x) w =
      Moves-if s (is_terminal x.status) (pure RecordOutcome.done) (claim_step s clock cases m x) w
        ((Safe-pure platform options s _).at w) (claim_step-Moves m x w)

  handle_step-Moves :
      (z : StepId) (m : WorkflowMessage) (w : s.World) → Moves s (handle_step s clock cases z m) w
  unfolding handle_step
  handle_step-Moves StepId.enrich m w =
      bind-Moves s _ _ w ((get_workflow-Safe platform options s m.request_id).at w)
        (λ o _. after_read-Moves m o _)
  handle_step-Moves StepId.finalize m w = (Safe-pure platform options s _).at w

  -- Worker A, at whatever moment it runs and wherever it fails: its handler makes only the
  -- transitions that the invariants of the table survive, so that it advances no workflow whose
  -- ENRICH step it has not claimed.
  pub handle_message-Moves :
      (m : WorkflowMessage) (w : s.World) → Moves s (handle_message s clock cases m) w
  unfolding handle_message
  handle_message-Moves m w = handle_step-Moves m.step m w

  pub handle_record-Moves :
      (body : Text) (w : s.World) → Moves s (handle_record s clock cases body) w
  unfolding handle_record
  handle_record-Moves body w =
      lift-Moves s (parse_workflow_message platform body) _ w (λ m _. handle_message-Moves m w)
