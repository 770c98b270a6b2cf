-- ===== src/Worker/Acknowledged.antt =====
-- The messages that the handler of apps/worker-a lets go.
use api_proxy.Base.{
  ◌≡◌, refl, ◌∙◌, ◌⊎◌, inl, inr, true, Text, Option, none, some, ok, pure, lift, try_catch,
}
use api_proxy.Contracts.Errors.{Thrown, AppError, permanent}
use api_proxy.Contracts.Ids.{Platform}
use api_proxy.Contracts.Workflow.{WorkflowRecord, StepId, is_terminal}
use api_proxy.Contracts.Messages.{WorkflowMessage}
use api_proxy.Messaging.{RecordOutcome}
use api_proxy.Persistence.Dynamo.{Table}
use api_proxy.Repository.{
  RepositoryOptions, AdvanceStepResult, BeginStepResult, started, resumed, already_succeeded,
}
use api_proxy.Repository.Commit.{Evolves, Evolves-trans, here}
use api_proxy.Repository.Commit.Present.{IsPresent}
use api_proxy.Persistence.Keys.{workflow_key}
use api_proxy.Repository.Service.{Service}
use api_proxy.Repository.Clock.{Clock, timed, read_clock}
use api_proxy.Repository.Soundness.{IsSound, Evolves-IsSound}
use api_proxy.Repository.Methods.{get_workflow, advance_step_with_outbox}
use api_proxy.Contracts.Domain.{Enrichment}
use api_proxy.Repository.Safety.Chains.{Moves}
use api_proxy.Repository.Outcomes.Post.{
  Post, Post-pure, Post-throw, Post-if, Post-try_catch, Post-bind,
}
use api_proxy.Repository.Safety.Methods.{get_workflow-Safe}
use api_proxy.Repository.Safety.Advance.{Claims}
use api_proxy.Worker.Safety.{enrich_workflow-Moves, timed_claim, timed_claim-Safe}
use api_proxy.Repository.Outcomes.Timed.{
  fail-Settled, ClaimFact, claim-HadSucceeded, ReadFact, read-ReadFact,
}
use api_proxy.Repository.Outcomes.Terminal.{present-Settled, is_terminal_item}
use api_proxy.Repository.Outcomes.Advance.{
  HasNextEvent, Progressed, Progressed-from, advance_step_with_outbox-Progressed,
  succeeded-HasNextEvent,
}
use api_proxy.Worker.Enrich.{CaseMapping, enrich}
use api_proxy.Worker.Handler.{
  enrich_workflow, enrich_failed, record_failure, after_claim, claim_step, after_read, handle_step,
  handle_message, advance_params, after_advance,
}

module _ {platform : Platform} {options : RepositoryOptions} (s : Service platform options)
    (clock : Clock platform options s) (cases : CaseMapping) where
  -- Since the table `t`.
  abbrev Done : Table → Text → RecordOutcome → s.World → Type 0
  Done t r x v = Progressed platform options t (s.table v) r

  advanced_by :
      (m : WorkflowMessage) (e : Enrichment) (t : Table) (w : s.World) (b : AdvanceStepResult)
      → IsSound platform options t
      → Evolves platform options t (s.table w)
      → let a = timed clock (advance_step_with_outbox platform options s (advance_params m e)) w in
        a.0 ≡ ok b → Progressed platform options t (s.table a.1) m.request_id
  unfolding try_catch
  advanced_by m e t w b q ev k =
      let (now, v) = clock.read w in
      let a = Evolves-trans platform options ev (clock.read_lem w) in
      Progressed-from platform options t (s.table v) _ m.request_id a (
        advance_step_with_outbox-Progressed platform options s (advance_params m e) now v b
          (refl, refl) (Evolves-IsSound platform options t _ q a) k)

  enrich_workflow-Post :
      (m : WorkflowMessage) (x : WorkflowRecord) (t : Table) (w : s.World)
      → IsSound platform options t
      → Evolves platform options t (s.table w)
      → Post (Done t m.request_id) (enrich_workflow s clock cases m x) w
  unfolding enrich_workflow lift
  enrich_workflow-Post m x t w q ev =
      let Q = Done t m.request_id in
      Post-bind Q (lift _) _ w (λ input _. Post-bind Q (lift _) _ w (λ _ _.
        Post-bind Q (read_clock clock) _ w (λ at _.
          Post-bind Q (timed clock _) _ (clock.read w).1 (λ b k. Post-pure Q (after_advance b) _ (
            advanced_by m (enrich cases input at) t _ b q
              (Evolves-trans platform options ev (clock.read_lem w)) k)))))

  record_failure-Post :
      (m : WorkflowMessage) (o : Option AppError) (e : Thrown) (t : Table) (w : s.World)
      → IsSound platform options t
      → Evolves platform options t (s.table w)
      → Post (Done t m.request_id) (record_failure s clock cases m o e) w
  unfolding record_failure
  record_failure-Post m none e t w q ev = Post-throw (Done t m.request_id) e w
  record_failure-Post m (some x) e t w q ev =
      let Q = Done t m.request_id in
      Post-bind Q (timed clock _) _ w (λ b k.
        Post-pure Q RecordOutcome.done _
          (inr (fail-Settled s clock t q w ev m.request_id StepId.enrich _ b k)))

  attempt-Post :
      (m : WorkflowMessage) (x : WorkflowRecord) (t : Table) (w : s.World)
      → IsSound platform options t
      → Evolves platform options t (s.table w)
      → Moves s (enrich_workflow s clock cases m x) w
      → Post
          (Done t m.request_id)
          (try_catch (enrich_workflow s clock cases m x) pure (enrich_failed s clock cases m))
          w
  unfolding enrich_failed
  attempt-Post m x t w q ev mv =
      let Q = Done t m.request_id in
      Post-try_catch Q (enrich_workflow s clock cases m x) pure (enrich_failed s clock cases m) w
        (λ b k. Post-pure Q b _ (enrich_workflow-Post m x t w q ev b k))
        (λ e k. record_failure-Post m (permanent e) e t _ q (Evolves-trans platform options ev mv))

  after_claim-Post :
      (m : WorkflowMessage) (x : WorkflowRecord) (c : BeginStepResult) (t : Table) (w : s.World)
      → (q : IsSound platform options t) → (ev : Evolves platform options t (s.table w))
      → Claims platform options s m.request_id StepId.enrich (ok c) (s.table w)
      → ClaimFact s clock t q w ev (s.table w) m.request_id StepId.enrich c
      → Post (Done t m.request_id) (after_claim s clock cases m x c) w
  unfolding after_claim
  after_claim-Post m x (already_succeeded step) t w q ev l f =
      Post-pure (Done t m.request_id) RecordOutcome.done w
        (inl (succeeded-HasNextEvent platform options t (s.table w) m.request_id q f))
  after_claim-Post m x (started step) t w q ev l f =
      attempt-Post m x t w q ev (enrich_workflow-Moves s clock cases m x w l)
  after_claim-Post m x (resumed step previous) t w q ev l f =
      attempt-Post m x t w q ev (enrich_workflow-Moves s clock cases m x w l)

  claim_step-Post :
      (m : WorkflowMessage) (x : WorkflowRecord) (t : Table) (w : s.World)
      → IsSound platform options t
      → Evolves platform options t (s.table w)
      → Post (Done t m.request_id) (claim_step s clock cases m x) w
  unfolding claim_step
  claim_step-Post m x t w q ev = Post-bind (Done t m.request_id) (timed clock _) _ w (λ c k.
      after_claim-Post m x c t _ q
        (Evolves-trans platform options ev ((timed_claim-Safe s clock cases m).at w))
        (timed_claim s clock cases m c w k)
        (claim-HadSucceeded s clock t q w ev m.request_id StepId.enrich none c k))

  after_read-Post :
      (m : WorkflowMessage) (o : Option WorkflowRecord) (t : Table) (w : s.World)
      → (q : IsSound platform options t) → (ev : Evolves platform options t (s.table w))
      → ReadFact s clock t q w ev (s.table w) m.request_id o
      → Post (Done t m.request_id) (after_read s clock cases m o) w
  unfolding after_read
  after_read-Post m none t w q ev f =
      Post-pure (Done t m.request_id) RecordOutcome.done w (inr (inr f))
  after_read-Post m (some x) t w q ev f =
      Post-if (Done t m.request_id) (is_terminal x.status) (pure RecordOutcome.done)
        (claim_step s clock cases m x) w
        (λ h. Post-pure (Done t m.request_id) RecordOutcome.done w (inr (inl (f ∙ h))))
        (λ _. claim_step-Post m x t w q ev)

  handle_step-Post :
      (z : StepId) (m : WorkflowMessage) (w : s.World)
      → z ≡ StepId.enrich
      → IsSound platform options (s.table w)
      → Post (Done (s.table w) m.request_id) (handle_step s clock cases z m) w
  unfolding handle_step
  handle_step-Post StepId.finalize m w e q = cc
  handle_step-Post StepId.enrich m w e q =
      Post-bind (Done (s.table w) m.request_id) (get_workflow platform options s m.request_id) _ w
        (λ o k.
          after_read-Post m o (s.table w) _ q
            ((get_workflow-Safe platform options s m.request_id).at w)
            (read-ReadFact s clock (s.table w) q w here m.request_id o k))

  handle_message-Progressed :
      (m : WorkflowMessage) (w : s.World) (x : RecordOutcome)
      → m.step ≡ StepId.enrich
      → IsSound platform options (s.table w)
      → let a = handle_message s clock cases m w in
        a.0 ≡ ok x → Progressed platform options (s.table w) (s.table a.1) m.request_id
  unfolding handle_message
  handle_message-Progressed m w x e q h = handle_step-Post m.step m w e q x h

  -- Worker A acknowledges a message of ENRICH only where its work is recorded: from a sound table
  -- that has the workflow, whatever other tasks do meanwhile, either the event for FINALIZE is in
  -- the outbox by then, or the workflow is COMPLETED or FAILED.
  pub acknowledged_progress :
      (m : WorkflowMessage) (w : s.World) (x : RecordOutcome)
      → m.step ≡ StepId.enrich
      → IsSound platform options (s.table w)
      → IsPresent platform options (s.table w) m.request_id
      → let a = handle_message s clock cases m w in
        a.0 ≡ ok x
        → HasNextEvent platform options (s.table a.1) m.request_id
          ⊎ (is_terminal_item (s.table a.1 (workflow_key m.request_id)) ≡ true)
  acknowledged_progress m w x e q p h = elim (handle_message-Progressed m w x e q h) [
    | inl k ↦ inl k
    | inr k ↦ inr (present-Settled platform options (s.table w) _ m.request_id p k)
  ]
