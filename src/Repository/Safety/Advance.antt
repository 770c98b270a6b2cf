-- ===== src/Repository/Safety/Advance.antt =====
-- advanceStepWithOutbox and the claim that comes before it, as transitions of Commit.
use api_proxy.Base.{
  ℕ, ◌≡◌, ap, true, Text, Option, none, some, is_some, Exec, Result, ok, err, pure, throw,
  try_catch, resume, arith,
}
use api_proxy.Contracts.Errors.{Thrown}
use api_proxy.Contracts.Ids.{Platform}
use api_proxy.Contracts.Workflow.{StepId}
use api_proxy.Persistence.Keys.{step_key}
use api_proxy.Persistence.Keys.Apart.{same_key_refl}
use api_proxy.Persistence.Items.{Item, StepItem}
use api_proxy.Persistence.Dynamo.{Table, Updates}
use api_proxy.Repository.{
  RepositoryOptions, AdvanceParams, BeginStepResult, started, resumed, already_succeeded,
}
use api_proxy.Repository.Writes.{
  advance_writes, begin_write, upsert_step, claimed, marked_unknown, step_succeeded, finished_step,
}
use api_proxy.Repository.Commit.{
  Commit, Evolves, create, begin, mark_unknown, advance, finish, publish, Evolves-trans,
  Evolves-induction, IsPipelineAdvance,
}
use api_proxy.Repository.Commit.Reads.{
  create-step, begin-step, mark-step, advance-step, finish-step, publish-step,
}
use api_proxy.Repository.Service.{Service}
use api_proxy.Repository.Methods.{
  advance_step_with_outbox, begin_step, claim_answer, claim_failed, or_throw, rethrow,
}
use api_proxy.Repository.Safety.{Safe, Safe-pure, transacted}
use api_proxy.Repository.Safety.Methods.{advance_failed-Safe}

upsert_step-is_some : (f : StepItem → StepItem) (o : Option Item) → is_some (upsert_step f o) ≡ true
upsert_step-is_some f o = ground arith

module _ (platform : Platform) (options : RepositoryOptions) where
  Commit-claimed :
      (r : Text) (z : StepId) (t u : Table)
      → is_some (t (step_key r z)) ≡ true
      → Commit platform options t u
      → is_some (u (step_key r z)) ≡ true
  Commit-claimed r z t u h (create input now v a e) =
      ground (
        arith,
        ap (λ (f : Table). f (step_key r z)) e,
        create-step platform options t input now r z,
      )
  Commit-claimed r z t u h (begin q s ref now a e) = ground (
    arith,
    ap (λ (f : Table). f (step_key r z)) e,
    begin-step platform options t q s ref now r z,
    upsert_step-is_some (claimed platform options q s ref now) (t (step_key q s)),
  )
  Commit-claimed r z t u h (mark_unknown q s now a e) = ground (
    arith,
    ap (λ (f : Table). f (step_key r z)) e,
    mark-step platform options t q s now r z,
    upsert_step-is_some (marked_unknown now) (t (step_key q s)),
  )
  Commit-claimed r z t u h (advance p now v x a e) = ground (
    arith,
    ap (λ (f : Table). f (step_key r z)) e,
    advance-step platform options t p now r z,
    upsert_step-is_some (step_succeeded p.step_result now) (t (step_key p.request_id p.step_id)),
  )
  Commit-claimed r z t u h (finish p now v a e) = ground (
    arith,
    ap (λ (f : Table). f (step_key r z)) e,
    finish-step platform options t p now r z,
    upsert_step-is_some (finished_step platform options p now)
        (t (step_key p.request_id p.step_id)),
  )
  Commit-claimed r z t u h (publish q f now a e) =
      ground
        (arith, ap (λ (g : Table). g (step_key r z)) e, publish-step platform options t q f now r z)

  -- A step item never goes away.
  pub claimed_forever :
      (r : Text) (z : StepId) (t u : Table)
      → is_some (t (step_key r z)) ≡ true
      → Evolves platform options t u
      → is_some (u (step_key r z)) ≡ true
  claimed_forever r z t u h ev =
      Evolves-induction platform options (λ v. is_some (v (step_key r z)) ≡ true)
        (λ v w p. Commit-claimed r z v w p) ev h

  module _ (s : Service platform options) where
    resumed_at :
        {A B : Type 0} (m : Exec s.World Thrown A) (f : A → Exec s.World Thrown B)
        (h : Thrown → Exec s.World Thrown B) (w : s.World)
        → Evolves platform options (s.table w) (s.table (m w).1)
        → ((a : A) → Safe platform options s (f a))
        → ((e : Thrown) → Safe platform options s (h e))
        → Evolves platform options (s.table w) (s.table (try_catch m f h w).1)
    unfolding try_catch
    resumed_at {A = A} m f h w ev p q = Evolves-trans platform options ev (go (m w).0)
      where
        go :
            (r : Result Thrown A)
            → Evolves platform options (s.table (m w).1) (s.table (resume r f h (m w).1).1)
        go (ok a) = (p a).at (m w).1
        go (err e) = (q e).at (m w).1

    pub advance_step_with_outbox-Safe :
        (p : AdvanceParams) (now : ℕ) (w : s.World)
        → IsPipelineAdvance p
        → is_some (s.table w (step_key p.request_id p.step_id)) ≡ true
        → Evolves platform options
            (s.table w)
            (s.table (advance_step_with_outbox platform options s p now w).1)
    unfolding advance_step_with_outbox
    advance_step_with_outbox-Safe p now w v h =
        let (t, ev, tr) = s.transact_lem (advance_writes platform options p now) w in
        resumed_at (s.transact (advance_writes platform options p now)) _ _ w
          (Evolves-trans platform options ev (
            transacted platform options _ t _ _
              (advance p now v (claimed_forever p.request_id p.step_id _ t h ev)) tr))
          (λ _. Safe-pure platform options s _)
          (advance_failed-Safe platform options s p.request_id)

    -- What a claim that does not find the step finished says of the table after it.
    abbrev pub Claims : Text → StepId → Result Thrown BeginStepResult → Table → Type 0
    Claims r z (ok (started step)) t = is_some (t (step_key r z)) ≡ true
    Claims r z (ok (resumed step previous)) t = is_some (t (step_key r z)) ≡ true
    Claims r z (ok (already_succeeded step)) t = Unit {0}
    Claims r z (err e) t = Unit {0}

    answer-Claims :
        (r : Text) (z : StepId) (ref : Option Text) (now : ℕ) (o : Option Item) (w : s.World)
        → is_some (s.table w (step_key r z)) ≡ true
        → let a = claim_answer platform options s r z ref now o w in Claims r z a.0 (s.table a.1)
    unfolding claim_answer try_catch
    answer-Claims r z ref now none w h = ground arith
    answer-Claims r z ref now (some old) w h = ground arith

    late-Claims :
        (r : Text) (z : StepId) (e : Thrown) (w : s.World)
        → let a = claim_failed platform options s r z e w in Claims r z a.0 (s.table a.1)
    unfolding claim_failed try_catch or_throw rethrow
    late-Claims r z e w = ground arith

    finish_claim :
        (r : Text) (z : StepId) (a : Result Thrown BeginStepResult) (w : s.World)
        → Claims r z a (s.table w)
        → let b = resume a pure (claim_failed platform options s r z) w in
          Claims r z b.0 (s.table b.1)
    unfolding try_catch
    finish_claim r z (ok (started step)) w c = c
    finish_claim r z (ok (resumed step previous)) w c = c
    finish_claim r z (ok (already_succeeded step)) w c = c
    finish_claim r z (err e) w c = late-Claims r z e w

    start_claim :
        (r : Text) (z : StepId) (ref : Option Text) (now : ℕ) (q : Result Thrown (Option Item))
        (w : s.World) (t : Table)
        → Updates (begin_write platform options r z ref now) t q (s.table w)
        → let a = resume q (claim_answer platform options s r z ref now) throw w in
          Claims r z a.0 (s.table a.1)
    unfolding try_catch begin_write
    start_claim r z ref now (ok old) w t h = answer-Claims r z ref now old w (
        rw (ap (λ (f : Table). f (step_key r z)) h.2, same_key_refl)
          (upsert_step-is_some (claimed platform options r z ref now) (t (step_key r z))))
    start_claim r z ref now (err e) w t h = tt

    -- A claim that answers STARTED or RESUMED leaves a step item.
    pub begin-Claims :
        (r : Text) (z : StepId) (ref : Option Text) (now : ℕ) (w : s.World)
        → let a = begin_step platform options s r z ref now w in Claims r z a.0 (s.table a.1)
    unfolding begin_step try_catch
    begin-Claims r z ref now w =
        let x = begin_write platform options r z ref now in
        let (t, ev, up) = s.update_lem x w in
        let a =
          resume (s.update x w).0 (claim_answer platform options s r z ref now) throw
            (s.update x w).1 in
        finish_claim r z a.0 a.1 (start_claim r z ref now (s.update x w).0 (s.update x w).1 t up)
