-- ===== src/Repository/Outcomes/Claim.antt =====
-- The claim's answer ALREADY_SUCCEEDED.
use api_proxy.Base.{
  ℕ, ◌≡◌, refl, Bool, true, false, not, Text, Option, none, some, Result, ok, err, pure, throw,
  try_catch, resume, arith, subst,
}
use api_proxy.Contracts.Errors.{
  Thrown, app_error, conditional_check_failed_exception, transaction_canceled_exception,
  other_error,
}
use api_proxy.Contracts.Ids.{Platform}
use api_proxy.Contracts.Workflow.{StepId, StepRecord}
use api_proxy.Persistence.Keys.{step_key}
use api_proxy.Persistence.Items.{Item, decode_step, decode_failure, decode_with}
use api_proxy.Persistence.Failures.{is_conditional_check_failed}
use api_proxy.Persistence.Dynamo.{Table, Updates}
use api_proxy.Repository.{RepositoryOptions, BeginStepResult, started, resumed, already_succeeded}
use api_proxy.Repository.Writes.{begin_write, not_succeeded}
use api_proxy.Repository.Commit.{Evolves}
use api_proxy.Repository.Service.{Service}
use api_proxy.Repository.Methods.{begin_step, claim_answer, claim_failed, rethrow}
use api_proxy.Repository.Safety.Methods.{claim_failed-Safe}

module _ (platform : Platform) (options : RepositoryOptions) where
  -- Between the tables `t` and `u` the step had succeeded.
  abbrev pub HadSucceeded : Table → Table → Text → StepId → Type 0
  HadSucceeded t u r z =
      (v : Table) × Evolves platform options t v
      × Evolves platform options v u
      × (not_succeeded (v (step_key r z)) ≡ false)

module _ (platform : Platform) (options : RepositoryOptions) (s : Service platform options) where
  -- The answer found no finished step, or is an error that says nothing of one.
  abbrev is_fresh : Result Thrown BeginStepResult → Bool
  is_fresh (ok (started step)) = true
  is_fresh (ok (resumed step previous)) = true
  is_fresh (ok (already_succeeded step)) = false
  is_fresh (err e) = not (is_conditional_check_failed e)

  fresh_answer :
      (r : Text) (z : StepId) (ref : Option Text) (now : ℕ) (o : Option Item) (w : s.World)
      → is_fresh (claim_answer platform options s r z ref now o w).0 ≡ true
  unfolding claim_answer try_catch decode_step decode_with decode_failure
      is_conditional_check_failed
  fresh_answer r z ref now none w = ground arith
  fresh_answer r z ref now (some old) w = ground arith

  fresh_failure :
      (r : Text) (z : StepId) (e : Thrown) (w : s.World) (step : StepRecord)
      → is_conditional_check_failed e ≡ false
      → (claim_failed platform options s r z e w).0 ≡ ok (already_succeeded step)
      → ⊥
  unfolding claim_failed rethrow
  fresh_failure r z e w step c h = ground arith

  fresh_end :
      (r : Text) (z : StepId) (a : Result Thrown BeginStepResult) (w : s.World) (step : StepRecord)
      → is_fresh a ≡ true
      → (resume a pure (claim_failed platform options s r z) w).0 ≡ ok (already_succeeded step)
      → ⊥
  unfolding try_catch
  fresh_end r z (ok (started x)) w step f h = cc
  fresh_end r z (ok (resumed x previous)) w step f h = cc
  fresh_end r z (ok (already_succeeded x)) w step f h = cc
  fresh_end r z (err e) w step f h = fresh_failure r z e w step (ground arith) h

  claimed_by :
      (r : Text) (z : StepId) (ref : Option Text) (now : ℕ) (t v : Table)
      (q : Result Thrown (Option Item)) (w : s.World) (step : StepRecord)
      → Evolves platform options t v
      → Updates (begin_write platform options r z ref now) v q (s.table w)
      → let b = resume q (claim_answer platform options s r z ref now) throw w in
        let a = resume b.0 pure (claim_failed platform options s r z) b.1 in
        a.0 ≡ ok (already_succeeded step) → HadSucceeded platform options t (s.table a.1) r z
  unfolding try_catch begin_write is_conditional_check_failed
  claimed_by r z ref now t v (ok o) w step ev h k =
      absurd (fresh_end r z _ _ step (fresh_answer r z ref now o w) k)
  claimed_by r z ref now t v (err (conditional_check_failed_exception m)) w step ev h k =
      let e = conditional_check_failed_exception m in
      (
        v,
        ev,
        subst
            (λ y. Evolves platform options y (s.table (claim_failed platform options s r z e w).1))
            h.1 ((claim_failed-Safe platform options s r z e).at w),
        ground arith,
      )
  claimed_by r z ref now t v (err (other_error n m)) w step ev h k =
      absurd (fresh_end r z (err (other_error n m)) w step refl k)
  claimed_by r z ref now t v (err (transaction_canceled_exception rs m)) w step ev h k = elim h [ ]
  claimed_by r z ref now t v (err (app_error e)) w step ev h k = elim h [ ]

  -- ALREADY_SUCCEEDED is the truth: the step was found finished.
  pub begin_step-HadSucceeded :
      (r : Text) (z : StepId) (ref : Option Text) (now : ℕ) (w : s.World) (step : StepRecord)
      → let a = begin_step platform options s r z ref now w in
        a.0 ≡ ok (already_succeeded step)
        → HadSucceeded platform options (s.table w) (s.table a.1) r z
  unfolding begin_step try_catch
  begin_step-HadSucceeded r z ref now w step h =
      let x = begin_write platform options r z ref now in
      let (v, ev, up) = s.update_lem x w in
      claimed_by r z ref now (s.table w) v (s.update x w).0 (s.update x w).1 step ev up h
