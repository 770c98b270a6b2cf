-- ===== src/Repository/Commit/Shape/Steps.antt =====
-- The shape of step items, under each transition.
use api_proxy.Base.{
  ℕ, ◌≡◌, ap, subst, true, ◌&&◌, Text, text_eq, text_eq→eq, Option, none, some, is_some, arith,
}
use api_proxy.Contracts.Ids.{Platform}
use api_proxy.Contracts.Workflow.{StepId}
use api_proxy.Persistence.Keys.{step_key}
use api_proxy.Persistence.Keys.Apart.{same_step, same_step→eq}
use api_proxy.Persistence.Items.{
  Item, StepItem, workflow_item, step_item, outbox_item, idempotency_item,
}
use api_proxy.Persistence.Dynamo.{Table}
use api_proxy.Repository.{RepositoryOptions, TerminalParams}
use api_proxy.Repository.Writes.{
  finished_step, claimed, upsert_step, marked_unknown, step_succeeded,
}
use api_proxy.Repository.Commit.{Commit, create, begin, mark_unknown, advance, finish, publish}
use api_proxy.Repository.Commit.Reads.{
  create-step, begin-step, mark-step, advance-step, finish-step, publish-step,
}
use api_proxy.Repository.Commit.Guards.{mark_guard}
use api_proxy.Repository.Commit.Shape.{StepShape, if_intro}

module _ (platform : Platform) (options : RepositoryOptions) where
  claimed-shape :
      (r : Text) (s : StepId) (ref : Option Text) (now : ℕ) (old : Option Item)
      → StepShape r s old
      → StepShape r s (upsert_step (claimed platform options r s ref now) old)
  unfolding claimed
  claimed-shape r s ref now none h = ground arith
  claimed-shape r s ref now (some (step_item i)) h = ground arith
  claimed-shape r s ref now (some (workflow_item _)) h = elim h [ ]
  claimed-shape r s ref now (some (idempotency_item _)) h = elim h [ ]
  claimed-shape r s ref now (some (outbox_item _)) h = elim h [ ]

  finished_step-shape :
      (p : TerminalParams) (now : ℕ) (old : Option Item)
      → StepShape p.request_id p.step_id old
      → StepShape p.request_id p.step_id (upsert_step (finished_step platform options p now) old)
  unfolding finished_step
  finished_step-shape p now none h = ground arith
  finished_step-shape p now (some (step_item i)) h = ground arith
  finished_step-shape p now (some (workflow_item _)) h = elim h [ ]
  finished_step-shape p now (some (idempotency_item _)) h = elim h [ ]
  finished_step-shape p now (some (outbox_item _)) h = elim h [ ]

  -- An update of the status of a step that is there.
  update-shape :
      (r : Text) (s : StepId) (f : StepItem → StepItem)
      → ((i : StepItem)
          → StepShape r s (some (step_item i))
          → StepShape r s (some (step_item (f i))))
      → (old : Option Item) → is_some old ≡ true
      → StepShape r s old
      → StepShape r s (upsert_step f old)
  update-shape r s f keep none h p = cc
  update-shape r s f keep (some (step_item i)) h p = keep i p
  update-shape r s f keep (some (workflow_item _)) h p = elim p [ ]
  update-shape r s f keep (some (idempotency_item _)) h p = elim p [ ]
  update-shape r s f keep (some (outbox_item _)) h p = elim p [ ]

  at_step :
      (q r : Text) (z s : StepId) (o : Option Item)
      → (text_eq q r && same_step z s) ≡ true
      → StepShape q z o
      → StepShape r s o
  at_step q r z s o h p =
      let e = text_eq→eq q r (ground arith) in
      let d = same_step→eq z s (ground arith) in
      subst (λ x. StepShape x s o) e (subst (λ x. StepShape q x o) d p)

  module _ (t u : Table) where
    -- Every step item has the attributes that its schema requires.
    pub Commit-StepShape :
        ((r : Text) (s : StepId) → StepShape r s (t (step_key r s)))
        → Commit platform options t u
        → (r : Text) (s : StepId) → StepShape r s (u (step_key r s))
    Commit-StepShape w (create input now v a e) r s =
        rw (ap (λ (f : Table). f (step_key r s)) e, create-step platform options t input now r s)
          (w r s)
    Commit-StepShape w (begin q z ref now a e) r s =
        rw (ap (λ (f : Table). f (step_key r s)) e, begin-step platform options t q z ref now r s)
          (if_intro (StepShape r s) (text_eq q r && same_step z s) _ _
            (λ h. at_step q r z s _ h (claimed-shape q z ref now (t (step_key q z)) (w q z)))
            (w r s))
    Commit-StepShape w (mark_unknown q z now a e) r s =
        rw (ap (λ (f : Table). f (step_key r s)) e, mark-step platform options t q z now r s)
          (if_intro (StepShape r s) (text_eq q r && same_step z s) _ _
            (λ h. at_step q r z s _ h (
              update-shape q z (marked_unknown now) (λ i y. unfold marked_unknown in ground arith)
                (t (step_key q z)) (ground (arith, mark_guard platform options t q z now a))
                (w q z)))
            (w r s))
    Commit-StepShape w (advance p now v x a e) r s =
        rw (ap (λ (f : Table). f (step_key r s)) e, advance-step platform options t p now r s)
          (if_intro (StepShape r s) (text_eq p.request_id r && same_step p.step_id s) _ _
            (λ h. at_step p.request_id r p.step_id s _ h (
              update-shape p.request_id p.step_id (step_succeeded p.step_result now)
                (λ i y. unfold step_succeeded in ground arith) (t (step_key p.request_id p.step_id))
                x (w p.request_id p.step_id)))
            (w r s))
    Commit-StepShape w (finish p now v a e) r s =
        rw (ap (λ (f : Table). f (step_key r s)) e, finish-step platform options t p now r s)
          (if_intro (StepShape r s) (text_eq p.request_id r && same_step p.step_id s) _ _
            (λ h. at_step p.request_id r p.step_id s _ h (
              finished_step-shape p now (t (step_key p.request_id p.step_id))
                (w p.request_id p.step_id)))
            (w r s))
    Commit-StepShape w (publish q f now a e) r s =
        rw (ap (λ (g : Table). g (step_key r s)) e, publish-step platform options t q f now r s)
          (w r s)
