-- ===== src/Repository/Commit/Links/Events.antt =====
-- The outbox: stored events, and the steps that leave them.
use api_proxy.Base.{
  ℕ, ◌≡◌, refl, ap, ◌⊎◌, inl, inr, true, false, Text, text_eq, text_eq→eq, text_eq_refl, Option,
  is_some, arith, Bool-cases,
}
use api_proxy.Contracts.Ids.{Platform}
use api_proxy.Contracts.Workflow.{StepId}
use api_proxy.Persistence.Keys.{step_key, outbox_key}
use api_proxy.Persistence.Keys.Apart.{same_step→eq}
use api_proxy.Persistence.Items.{Item}
use api_proxy.Persistence.Dynamo.{Table}
use api_proxy.Repository.{
  RepositoryOptions, TerminalParams, TerminalOutcome, completed_with, failed_with,
}
use api_proxy.Repository.Writes.{finished_step, upsert_step, not_succeeded, event_id_for}
use api_proxy.Repository.Commit.{
  CompletesAt, Commit, create, begin, mark_unknown, advance, finish, publish,
}
use api_proxy.Repository.Commit.Reads.{
  create-step, begin-step, mark-step, advance-step, finish-step, publish-step, create-outbox,
  begin-outbox, mark-outbox, advance-outbox, finish-outbox, publish-outbox,
}
use api_proxy.Repository.Commit.Links.Finalize.{claimed-not_succeeded, marked-not_succeeded}

module _ (platform : Platform) (options : RepositoryOptions) where
  -- An event that was stored stays stored.
  pub Commit-stored :
      (t u : Table) (r e : Text)
      → is_some (t (outbox_key r e)) ≡ true
      → Commit platform options t u
      → is_some (u (outbox_key r e)) ≡ true
  Commit-stored t u r e h (create input now v a c) = ground (
    arith,
    ap (λ (f : Table). f (outbox_key r e)) c,
    create-outbox platform options t input now r e,
  )
  Commit-stored t u r e h (begin q s ref now a c) = ground (
    arith,
    ap (λ (f : Table). f (outbox_key r e)) c,
    begin-outbox platform options t q s ref now r e,
  )
  Commit-stored t u r e h (mark_unknown q s now a c) =
      ground (
        arith,
        ap (λ (f : Table). f (outbox_key r e)) c,
        mark-outbox platform options t q s now r e,
      )
  Commit-stored t u r e h (advance p now v x a c) =
      ground (
        arith,
        ap (λ (f : Table). f (outbox_key r e)) c,
        advance-outbox platform options t p now r e,
      )
  Commit-stored t u r e h (finish p now v a c) =
      ground (
        arith,
        ap (λ (f : Table). f (outbox_key r e)) c,
        finish-outbox platform options t p now r e,
      )
  Commit-stored t u r e h (publish q f now a c) = ground (
    arith,
    ap (λ (g : Table). g (outbox_key r e)) c,
    publish-outbox platform options t q f now r e,
    text_eq→eq q r,
    text_eq→eq f e,
  )

  -- A finished ENRICH step has left the event for FINALIZE in the outbox.
  abbrev pub EnrichLink : Table → Text → Type 0
  EnrichLink t r =
      not_succeeded (t (step_key r StepId.enrich)) ≡ false
      → is_some (t (outbox_key r (event_id_for platform options r StepId.finalize))) ≡ true

  finished_step-not_succeeded :
      (p : TerminalParams) (now : ℕ) (o : Option Item)
      → CompletesAt p.outcome p.step_id
      → p.step_id ≡ StepId.enrich
      → not_succeeded (upsert_step (finished_step platform options p now) o) ≡ true
  unfolding finished_step
  finished_step-not_succeeded p now o v h = go p.outcome refl v
    where
      go :
          (x : TerminalOutcome)
          → p.outcome ≡ x
          → CompletesAt x p.step_id
          → not_succeeded (upsert_step (finished_step platform options p now) o) ≡ true
      go (completed_with y) e k = cc (h, k)
      go (failed_with y) e k = ground arith

  step_before :
      (t u : Table) (r : Text)
      → Commit platform options t u
      → not_succeeded (u (step_key r StepId.enrich)) ≡ false
      → (not_succeeded (t (step_key r StepId.enrich)) ≡ false)
        ⊎ (is_some (u (outbox_key r (event_id_for platform options r StepId.finalize))) ≡ true)
  step_before t u r (create input now v a c) h = inl (
      ground (
        arith,
        ap (λ (f : Table). f (step_key r StepId.enrich)) c,
        create-step platform options t input now r StepId.enrich,
      ))
  step_before t u r (begin q s ref now a c) h = inl (
      ground (
        arith,
        ap (λ (f : Table). f (step_key r StepId.enrich)) c,
        begin-step platform options t q s ref now r StepId.enrich,
        claimed-not_succeeded platform options q s ref now (t (step_key q s)),
      ))
  step_before t u r (mark_unknown q s now a c) h = inl (
      ground (
        arith,
        ap (λ (f : Table). f (step_key r StepId.enrich)) c,
        mark-step platform options t q s now r StepId.enrich,
        marked-not_succeeded platform options now (t (step_key q s)),
      ))
  step_before t u r (advance p now v x a c) h = elim (Bool-cases (text_eq p.request_id r)) [
    | inl yes_r ↦ inr (
        rw (
          ap (λ (f : Table). f (outbox_key r (event_id_for platform options r StepId.finalize))) c,
          advance-outbox platform options t p now r
              (event_id_for platform options r StepId.finalize),
          v.1,
          yes_r,
          text_eq→eq p.request_id r yes_r,
          text_eq_refl,
        ))
    | inr no_r ↦ inl (
        ground (
          arith,
          ap (λ (f : Table). f (step_key r StepId.enrich)) c,
          advance-step platform options t p now r StepId.enrich,
        ))
  ]
  step_before t u r (finish p now v a c) h = inl (
      ground (
        arith,
        ap (λ (f : Table). f (step_key r StepId.enrich)) c,
        finish-step platform options t p now r StepId.enrich,
        finished_step-not_succeeded p now (t (step_key p.request_id p.step_id)) v,
        same_step→eq p.step_id StepId.enrich,
      ))
  step_before t u r (publish q f now a c) h = inl (
      ground (
        arith,
        ap (λ (g : Table). g (step_key r StepId.enrich)) c,
        publish-step platform options t q f now r StepId.enrich,
      ))

  pub Commit-enrich :
      (t u : Table) (r : Text) → EnrichLink t r → Commit platform options t u → EnrichLink u r
  Commit-enrich t u r w c h = elim (step_before t u r c h) [
    | inl before ↦ Commit-stored t u r _ (w before) c
    | inr after ↦ after
  ]
