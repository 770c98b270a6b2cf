-- ===== src/Repository/Outcomes/Timed.antt =====
-- The same answers where the handlers get them: after a reading of the clock, in a table that has
-- gone on from a sound one.
use api_proxy.Base.{◌≡◌, sym, ap, ◌∙◌, subst, Text, Option, none, some, ok, try_catch}
use api_proxy.Contracts.Ids.{Platform}
use api_proxy.Contracts.Json.{Json}
use api_proxy.Contracts.Workflow.{StepId, WorkflowError, WorkflowRecord, is_terminal}
use api_proxy.Persistence.Keys.{workflow_key}
use api_proxy.Persistence.Dynamo.{Table}
use api_proxy.Repository.{
  RepositoryOptions, BeginStepResult, started, resumed, already_succeeded, TerminalWriteResult,
}
use api_proxy.Repository.Commit.{Evolves, Evolves-trans, here}
use api_proxy.Repository.Service.{Service}
use api_proxy.Repository.Clock.{Clock, timed}
use api_proxy.Repository.Soundness.{IsSound, Evolves-IsSound}
use api_proxy.Repository.Methods.{
  get_workflow, begin_step, fail_if_processing, complete_if_processing,
}
use api_proxy.Repository.Outcomes.Get.{get_workflow-Served}
use api_proxy.Repository.Outcomes.Terminal.{
  Settled, Settled-from, WasMissing, write_terminal-Settled, is_terminal_item,
}
use api_proxy.Repository.Outcomes.Claim.{HadSucceeded, begin_step-HadSucceeded}

module _ {platform : Platform} {options : RepositoryOptions} (s : Service platform options)
    (clock : Clock platform options s) (t : Table) (q : IsSound platform options t) (w : s.World)
    (ev : Evolves platform options t (s.table w)) where
  pub fail-Settled :
      (r : Text) (z : StepId) (e : WorkflowError) (x : TerminalWriteResult)
      → let a = timed clock (fail_if_processing platform options s r z e) w in
        a.0 ≡ ok x → Settled platform options t (s.table a.1) r
  unfolding try_catch fail_if_processing
  fail-Settled r z e x k =
      let (now, v) = clock.read w in
      let a = Evolves-trans platform options ev (clock.read_lem w) in
      Settled-from platform options t (s.table v) _ r a (
        write_terminal-Settled platform options s _ now v x
          (Evolves-IsSound platform options t _ q a) k)

  pub complete-Settled :
      (r : Text) (z : StepId) (j : Json) (x : TerminalWriteResult)
      → let a = timed clock (complete_if_processing platform options s r z j) w in
        a.0 ≡ ok x → Settled platform options t (s.table a.1) r
  unfolding try_catch complete_if_processing
  complete-Settled r z j x k =
      let (now, v) = clock.read w in
      let a = Evolves-trans platform options ev (clock.read_lem w) in
      Settled-from platform options t (s.table v) _ r a (
        write_terminal-Settled platform options s _ now v x
          (Evolves-IsSound platform options t _ q a) k)

  -- What a claim tells of the step.
  abbrev pub ClaimFact : Table → Text → StepId → BeginStepResult → Type 0
  ClaimFact u r z (already_succeeded step) = HadSucceeded platform options t u r z
  ClaimFact u r z (started step) = Unit {0}
  ClaimFact u r z (resumed step previous) = Unit {0}

  pub claim-HadSucceeded :
      (r : Text) (z : StepId) (ref : Option Text) (c : BeginStepResult)
      → let a = timed clock (begin_step platform options s r z ref) w in
        a.0 ≡ ok c → ClaimFact (s.table a.1) r z c
  unfolding try_catch
  claim-HadSucceeded r z ref (started step) k = tt
  claim-HadSucceeded r z ref (resumed step previous) k = tt
  claim-HadSucceeded r z ref (already_succeeded step) k =
      let (now, v) = clock.read w in
      let (x, a, b, h) = begin_step-HadSucceeded platform options s r z ref now v step k in
      (
        x,
        Evolves-trans platform options ev (Evolves-trans platform options (clock.read_lem w) a),
        b,
        h,
      )

  -- What a read tells of the workflow.
  abbrev pub ReadFact : Table → Text → Option WorkflowRecord → Type 0
  ReadFact u r none = WasMissing platform options t u r
  ReadFact u r (some x) = is_terminal_item (u (workflow_key r)) ≡ is_terminal x.status

  pub read-ReadFact :
      (r : Text) (o : Option WorkflowRecord)
      → let a = get_workflow platform options s r w in a.0 ≡ ok o → ReadFact (s.table a.1) r o
  read-ReadFact r none k =
      let (v, a, e, h) = get_workflow-Served platform options s r w none k in
      (
        v,
        Evolves-trans platform options ev a,
        subst (λ y. Evolves platform options v y) (sym e) here,
        h,
      )
  read-ReadFact r (some x) k =
      let (v, i, a, e, h, d) = get_workflow-Served platform options s r w (some x) k in
      ap (λ (f : Table). is_terminal_item (f (workflow_key r))) e
      ∙ ap is_terminal_item h
      ∙ ap (λ (d : WorkflowRecord). is_terminal d.status) d
