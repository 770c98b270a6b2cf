-- ===== src/Finalizer/Acknowledged.antt =====
-- The messages that the handler of apps/finalizer lets go.
use api_proxy.Base.{
  ℕ, ◌≡◌, sym, subst, ◌∙◌, inl, inr, true, Text, Option, none, some, ok, pure, try_catch, ltb,
  arith,
}
use api_proxy.Contracts.Errors.{
  AppError, FailureClass, Thrown, app_error, conditional_check_failed_exception,
  transaction_canceled_exception, other_error,
}
use api_proxy.Contracts.Ids.{Platform}
use api_proxy.Contracts.Workflow.{WorkflowRecord, WorkflowError, StepId, is_terminal}
use api_proxy.Contracts.Domain.{
  Enrichment, OperationInput, OperationResult, ProviderStatus, ProviderOperationResponse,
  operation_input_schema,
}
use api_proxy.Contracts.Messages.{WorkflowMessage, finalize_payload}
use api_proxy.Idempotency.{derive_external_ref, step_name}
use api_proxy.Messaging.{RecordOutcome}
use api_proxy.Persistence.Items.{Item}
use api_proxy.Persistence.Keys.{workflow_key}
use api_proxy.Persistence.Dynamo.{Table}
use api_proxy.Repository.{RepositoryOptions, BeginStepResult, started, resumed, already_succeeded}
use api_proxy.Repository.Commit.{Evolves, Evolves-trans, here}
use api_proxy.Repository.Commit.Present.{IsPresent}
use api_proxy.Repository.Commit.Links.{is_completed}
use api_proxy.Repository.Service.{Service}
use api_proxy.Repository.Clock.{Clock, timed, read_clock}
use api_proxy.Repository.Soundness.{IsSound, Evolves-IsSound}
use api_proxy.Repository.Methods.{get_workflow, begin_step}
use api_proxy.Repository.Safety.Methods.{get_workflow-Safe}
use api_proxy.Repository.Outcomes.Post.{
  Post, Post-pure, Post-throw, Post-if, Post-try_catch, Post-bind,
}
use api_proxy.Repository.Outcomes.Terminal.{
  Settled, present-Settled, is_terminal_item, terminal_item_forever,
}
use api_proxy.Repository.Outcomes.Claim.{HadSucceeded}
use api_proxy.Repository.Outcomes.Timed.{
  fail-Settled, complete-Settled, ClaimFact, claim-HadSucceeded, ReadFact, read-ReadFact,
}
use api_proxy.Finalizer.Provider.{ProviderClient}
use api_proxy.Finalizer.Handler.{
  fail_workflow, complete_workflow, result_size, too_large_error, complete_within, write_outcome,
  write_terminal_state, reconcile, execute_unless_found, act, failed_with_class, act_failed,
  finish_succeeded, after_claim, claim_step, after_read, handle_payload, handle_message,
  provider_request, to_result,
}
use api_proxy.Finalizer.Safety.{
  reconcile-Safe, execute_unless_found-Safe, act-Safe, timed_claim-Safe,
}

completed-is_terminal : (o : Option Item) → is_completed o ≡ true → is_terminal_item o ≡ true
completed-is_terminal o h = ground arith

module _ {platform : Platform} {options : RepositoryOptions} (s : Service platform options)
    (clock : Clock platform options s) (provider : ProviderClient platform options s)
    (limit : ℕ) where
  -- The answer RETRY leaves the message on the queue; DONE promises an end, since the table `t`.
  abbrev pub Done : Table → Text → RecordOutcome → s.World → Type 0
  Done t r RecordOutcome.retry v = Unit {0}
  Done t r RecordOutcome.done v = Settled platform options t (s.table v) r

  module _ (t : Table) (q : IsSound platform options t) (r : Text) where
    fail_workflow-Post :
        (e : WorkflowError) (w : s.World)
        → Evolves platform options t (s.table w)
        → Post (Done t r) (fail_workflow s clock provider limit r e) w
    fail_workflow-Post e w ev = Post-bind (Done t r) (timed clock _) _ w (λ b k.
        Post-pure (Done t r) RecordOutcome.done _
          (fail-Settled s clock t q w ev r StepId.finalize e b k))

    complete_within-Post :
        (x : OperationResult) (w : s.World)
        → Evolves platform options t (s.table w)
        → Post (Done t r) (complete_within s clock provider limit r x) w
    unfolding complete_within
    complete_within-Post x w ev =
        Post-if (Done t r) (ltb limit (result_size x))
          (fail_workflow s clock provider limit r (too_large_error (result_size x) limit))
          (complete_workflow s clock provider limit r x) w (λ _. fail_workflow-Post _ w ev)
          (λ _. Post-bind (Done t r) (timed clock _) _ w (λ b k.
            Post-pure (Done t r) RecordOutcome.done _
              (complete-Settled s clock t q w ev r StepId.finalize _ b k)))

    write_outcome-Post :
        (o : ProviderStatus) (x : ProviderOperationResponse) (e : Enrichment) (w : s.World)
        → Evolves platform options t (s.table w)
        → Post (Done t r) (write_outcome s clock provider limit o r x e) w
    unfolding write_outcome
    write_outcome-Post ProviderStatus.declined x e w ev = fail_workflow-Post _ w ev
    write_outcome-Post ProviderStatus.settled x e w ev =
        Post-bind (Done t r) (read_clock clock) _ w (λ at _.
          complete_within-Post (to_result x e at) (clock.read w).1
            (Evolves-trans platform options ev (clock.read_lem w)))

    write_terminal_state-Post :
        (x : ProviderOperationResponse) (e : Enrichment) (w : s.World)
        → Evolves platform options t (s.table w)
        → Post (Done t r) (write_terminal_state s clock provider limit r x e) w
    unfolding write_terminal_state
    write_terminal_state-Post x e w ev = write_outcome-Post x.status x e w ev

    act-Post :
        (ref : Text) (i : OperationInput) (e : Enrichment) (c : BeginStepResult) (w : s.World)
        → Evolves platform options t (s.table w)
        → Post (Done t r) (act s clock provider limit r ref i e c) w
    unfolding act
    act-Post ref i e c w ev =
        let m = reconcile s clock provider limit ref c in
        let a =
          Evolves-trans platform options ev ((reconcile-Safe s clock provider limit ref c).at w) in
        Post-bind (Done t r) m _ w (λ o _.
          let n = execute_unless_found s clock provider limit ref (provider_request i e) o in
          Post-bind (Done t r) n _ (m w).1 (λ x _. write_terminal_state-Post x e (n (m w).1).1 (
            Evolves-trans platform options a (
              (execute_unless_found-Safe s clock provider limit ref (provider_request i e) o).at
                (m w).1))))

    failed_with_class-Post :
        (k : FailureClass) (e : AppError) (w : s.World)
        → Evolves platform options t (s.table w)
        → Post (Done t r) (failed_with_class s clock provider limit k r e) w
    unfolding failed_with_class
    failed_with_class-Post FailureClass.retryable e w ev =
        Post-pure (Done t r) RecordOutcome.retry w tt
    failed_with_class-Post FailureClass.non_retryable e w ev = fail_workflow-Post _ w ev
    failed_with_class-Post FailureClass.unknown_external_state e w ev =
        Post-bind (Done t r) (timed clock _) _ w
          (λ b k. Post-pure (Done t r) RecordOutcome.retry _ tt)

    act_failed-Post :
        (e : Thrown) (w : s.World)
        → Evolves platform options t (s.table w)
        → Post (Done t r) (act_failed s clock provider limit r e) w
    unfolding act_failed
    act_failed-Post (app_error e) w ev = failed_with_class-Post e.failure_class e w ev
    act_failed-Post (conditional_check_failed_exception m) w ev = Post-throw (Done t r) _ w
    act_failed-Post (transaction_canceled_exception rs m) w ev = Post-throw (Done t r) _ w
    act_failed-Post (other_error n m) w ev = Post-throw (Done t r) _ w

    attempt-Post :
        (ref : Text) (i : OperationInput) (e : Enrichment) (c : BeginStepResult) (w : s.World)
        → Evolves platform options t (s.table w)
        → Post
            (Done t r)
            (try_catch
              (act s clock provider limit r ref i e c)
              pure
              (act_failed s clock provider limit r))
            w
    attempt-Post ref i e c w ev =
        Post-try_catch (Done t r) (act s clock provider limit r ref i e c) pure
          (act_failed s clock provider limit r) w
          (λ b k. Post-pure (Done t r) b _ (act-Post ref i e c w ev b k))
          (λ x k. act_failed-Post x _ (
            Evolves-trans platform options ev ((act-Safe s clock provider limit r ref i e c).at w)))

    finish_succeeded-Post :
        (e : Enrichment) (o : Option ProviderOperationResponse) (w : s.World)
        → Evolves platform options t (s.table w)
        → is_terminal_item (s.table w (workflow_key r)) ≡ true
        → Post (Done t r) (finish_succeeded s clock provider limit r e o) w
    unfolding finish_succeeded
    finish_succeeded-Post e none w ev h = Post-pure (Done t r) RecordOutcome.done w (inl h)
    finish_succeeded-Post e (some x) w ev h = write_terminal_state-Post x e w ev

    -- A finished FINALIZE step belongs to a COMPLETED workflow.
    succeeded-is_terminal :
        (u : Table)
        → HadSucceeded platform options t u r StepId.finalize
        → is_terminal_item (u (workflow_key r)) ≡ true
    succeeded-is_terminal u (v, a, b, h) =
        terminal_item_forever platform options v u r
          (completed-is_terminal _ ((Evolves-IsSound platform options t v q a).finalized r h)) b

    after_claim-Post :
        (ref : Text) (i : OperationInput) (e : Enrichment) (c : BeginStepResult) (w w' : s.World)
        → (ev : Evolves platform options t (s.table w')) → Evolves platform options t (s.table w)
        → ClaimFact s clock t q w' ev (s.table w) r StepId.finalize c
        → Post (Done t r) (after_claim s clock provider limit r ref i e c) w
    unfolding after_claim
    after_claim-Post ref i e (already_succeeded step) w w' ev' ev f =
        finish_succeeded-Post e _ w ev (succeeded-is_terminal (s.table w) f)
    after_claim-Post ref i e (started step) w w' ev' ev f = attempt-Post ref i e (started step) w ev
    after_claim-Post ref i e (resumed step previous) w w' ev' ev f =
        attempt-Post ref i e (resumed step previous) w ev

    claim_step-Post :
        (e : Enrichment) (o : Option OperationInput) (w : s.World)
        → Evolves platform options t (s.table w)
        → Post (Done t r) (claim_step s clock provider limit r e o) w
    unfolding claim_step
    claim_step-Post e none w ev = fail_workflow-Post _ w ev
    claim_step-Post e (some i) w ev =
        let ref = derive_external_ref platform r (step_name StepId.finalize) in
        Post-bind (Done t r)
          (timed clock (begin_step platform options s r StepId.finalize (some ref))) _ w
          (λ c k.
            after_claim-Post ref i e c _ w ev
              (Evolves-trans platform options ev
                ((timed_claim-Safe s clock provider limit r (some ref)).at w))
              (claim-HadSucceeded s clock t q w ev r StepId.finalize (some ref) c k))

    after_read-Post :
        (e : Enrichment) (o : Option WorkflowRecord) (w w' : s.World)
        → (ev : Evolves platform options t (s.table w')) → Evolves platform options t (s.table w)
        → ReadFact s clock t q w' ev (s.table w) r o
        → Post (Done t r) (after_read s clock provider limit r e o) w
    unfolding after_read
    after_read-Post e none w w' ev' ev f = Post-pure (Done t r) RecordOutcome.done w (inr f)
    after_read-Post e (some x) w w' ev' ev f =
        Post-if (Done t r) (is_terminal x.status) (pure RecordOutcome.done)
          (claim_step s clock provider limit r e (operation_input_schema x.input)) w
          (λ h. Post-pure (Done t r) RecordOutcome.done w (inl (f ∙ h)))
          (λ _. claim_step-Post e _ w ev)

    handle_payload-Post :
        (e : Enrichment) (w : s.World)
        → Evolves platform options t (s.table w)
        → Post (Done t r) (handle_payload s clock provider limit r (finalize_payload e)) w
    unfolding handle_payload
    handle_payload-Post e w ev =
        Post-bind (Done t r) (get_workflow platform options s r) _ w (λ o k.
          after_read-Post e o _ w ev
            (Evolves-trans platform options ev ((get_workflow-Safe platform options s r).at w))
            (read-ReadFact s clock t q w ev r o k))

  handle_message-Settled :
      (m : WorkflowMessage) (e : Enrichment) (w : s.World)
      → m.payload ≡ finalize_payload e
      → IsSound platform options (s.table w)
      → let a = handle_message s clock provider limit m w in
        a.0 ≡ ok RecordOutcome.done
        → Settled platform options (s.table w) (s.table a.1) m.request_id
  unfolding handle_message
  handle_message-Settled m e w p q =
      subst
        (λ y.
          let a = handle_payload s clock provider limit m.request_id y w in
          a.0 ≡ ok RecordOutcome.done
          → Settled platform options (s.table w) (s.table a.1) m.request_id)
        (sym p) (λ h. handle_payload-Post (s.table w) q m.request_id e w here RecordOutcome.done h)

  -- The finalizer acknowledges a message (DONE, not RETRY) only where the outcome is recorded: from a
  -- sound table that has the workflow, whatever other tasks do meanwhile, the workflow is COMPLETED
  -- or FAILED by then.
  pub acknowledged_terminal :
      (m : WorkflowMessage) (e : Enrichment) (w : s.World)
      → m.payload ≡ finalize_payload e
      → IsSound platform options (s.table w)
      → IsPresent platform options (s.table w) m.request_id
      → let a = handle_message s clock provider limit m w in
        a.0 ≡ ok RecordOutcome.done
        → is_terminal_item (s.table a.1 (workflow_key m.request_id)) ≡ true
  acknowledged_terminal m e w p q x h =
      present-Settled platform options (s.table w) _ m.request_id x
        (handle_message-Settled m e w p q h)
