-- ===== src/Repository/Outcomes/Advance.antt =====
-- The answers of advanceStepWithOutbox.
use api_proxy.Base.{
  ℕ, ◌≡◌, sym, subst, ◌⊎◌, inl, inr, true, false, Text, text_eq_refl, Option, is_some, List, [],
  ◌∷◌, ◌++◌, length, get_elem?, Result, ok, err, pure, try_catch, resume, arith,
}
use api_proxy.Contracts.Errors.{
  Reason, Thrown, app_error, conditional_check_failed_exception, transaction_canceled_exception,
  other_error,
}
use api_proxy.Contracts.Ids.{Platform}
use api_proxy.Contracts.Workflow.{StepId}
use api_proxy.Persistence.Keys.{step_key, outbox_key}
use api_proxy.Persistence.Items.{Item}
use api_proxy.Persistence.Failures.{is_condition_failure, read_transaction_outcome}
use api_proxy.Persistence.Dynamo.{Table, Write, holds, Blames, Transacts, perform_all}
use api_proxy.Repository.{RepositoryOptions, AdvanceParams, AdvanceStepResult, advanced}
use api_proxy.Repository.Writes.{advance_writes, not_succeeded, absent, event_id_for}
use api_proxy.Repository.Commit.{Evolves, Evolves-induction, IsPipelineAdvance}
use api_proxy.Repository.Commit.Reads.{advance-outbox}
use api_proxy.Repository.Commit.Links.Events.{Commit-stored}
use api_proxy.Repository.Service.{Service}
use api_proxy.Repository.Soundness.{IsSound, Evolves-IsSound}
use api_proxy.Repository.Methods.{advance_step_with_outbox, advance_failed, rethrow}
use api_proxy.Repository.Safety.Methods.{advance_failed-Safe}
use api_proxy.Repository.Outcomes.Claim.{HadSucceeded}
use api_proxy.Repository.Outcomes.Terminal.{Settled, Settled-from, not_in_flight-Settled}

-- A cancelled transaction blames only requests whose condition does not hold.
blamed :
    (xs ys : List Write) (x : Write) (t : Table) (rs : List Reason)
    → Blames (xs ++ (x ∷ ys)) t rs
    → is_condition_failure (get_elem? rs (length xs)) ≡ true
    → holds t x ≡ false
blamed [] ys x t [] b h = cc
blamed [] ys x t (r ∷ rs) b h = b.0 (ground arith)
blamed (z ∷ xs) ys x t [] b h = cc
blamed (z ∷ xs) ys x t (r ∷ rs) b h = blamed xs ys x t rs b.1 h

module _ (platform : Platform) (options : RepositoryOptions) where
  -- The event that tells the queue of FINALIZE to go on.
  abbrev pub HasNextEvent : Table → Text → Type 0
  HasNextEvent t r =
      is_some (t (outbox_key r (event_id_for platform options r StepId.finalize))) ≡ true

  pub next_event_forever :
      (t u : Table) (r : Text) → HasNextEvent t r → Evolves platform options t u → HasNextEvent u r
  next_event_forever t u r h ev =
      Evolves-induction platform options (λ v. HasNextEvent v r)
        (λ v w p. Commit-stored platform options v w r _ p) ev h

  -- The work of ENRICH is over: its successor's event is stored, or there is nothing to go on with.
  abbrev pub Progressed : Table → Table → Text → Type 0
  Progressed t u r = HasNextEvent u r ⊎ Settled platform options t u r

  pub Progressed-from :
      (t u v : Table) (r : Text)
      → Evolves platform options t u
      → Progressed u v r
      → Progressed t v r
  Progressed-from t u v r a (inl h) = inl h
  Progressed-from t u v r a (inr h) = inr (Settled-from platform options t u v r a h)

  pub succeeded-HasNextEvent :
      (t u : Table) (r : Text)
      → IsSound platform options t
      → HadSucceeded platform options t u r StepId.enrich
      → HasNextEvent u r
  succeeded-HasNextEvent t u r q (v, a, b, h) =
      next_event_forever v u r ((Evolves-IsSound platform options t v q a).enriched r h) b

  advance-HasNextEvent :
      (p : AdvanceParams) (now : ℕ) (t : Table)
      → p.next_step ≡ StepId.finalize
      → HasNextEvent (perform_all (advance_writes platform options p now) t) p.request_id
  advance-HasNextEvent p now t e =
      subst
        (λ (z : StepId).
          is_some (
            perform_all (advance_writes platform options p now) t
              (outbox_key p.request_id (event_id_for platform options p.request_id z)))
          ≡ true)
        e
        (ground (
          arith,
          advance-outbox platform options t p now p.request_id
              (event_id_for platform options p.request_id p.next_step),
          text_eq_refl p.request_id,
          text_eq_refl (event_id_for platform options p.request_id p.next_step),
        ))

  present : (o : Option Item) → absent o ≡ false → is_some o ≡ true
  present o h = ground arith

  -- The advance's three conditions, as the transaction found them.
  canceled-Progressed :
      (p : AdvanceParams) (now : ℕ) (t v u : Table) (rs : List Reason)
      → IsPipelineAdvance p
      → IsSound platform options v
      → Evolves platform options t v
      → Evolves platform options v u
      → Blames (advance_writes platform options p now) v rs
      → ((is_condition_failure (get_elem? rs 0) ≡ true)
          ⊎ (is_condition_failure (get_elem? rs 1) ≡ true)
          ⊎ (is_condition_failure (get_elem? rs 2) ≡ true))
      → Progressed t u p.request_id
  unfolding advance_writes
  canceled-Progressed p now t v u rs g q a b h (inl c) = inr (
      not_in_flight-Settled platform options t v u p.request_id a b (q.workflows p.request_id)
        (blamed [] _ _ v rs h c))
  canceled-Progressed p now t v u rs g q a b h (inr (inl c)) =
      let e = blamed (_ ∷ []) _ _ v rs h c in
      inl (
        next_event_forever v u p.request_id
          (q.enriched p.request_id
            (subst (λ z. not_succeeded (v (step_key p.request_id z)) ≡ false) g.0 e))
          b)
  canceled-Progressed p now t v u rs g q a b h (inr (inr c)) =
      let e = blamed (_ ∷ (_ ∷ [])) _ _ v rs h c in
      inl (
        next_event_forever v u p.request_id
          (subst
            (λ z.
              is_some (v (outbox_key p.request_id (event_id_for platform options p.request_id z)))
              ≡ true)
            g.1 (present _ e))
          b)

  module _ (s : Service platform options) where
    abbrev Answers : AdvanceParams → Table → Result Thrown AdvanceStepResult × s.World → Type 0
    Answers p t (a, v) = (x : AdvanceStepResult) → a ≡ ok x → Progressed t (s.table v) p.request_id

    -- Only a cancelled transaction with one of the three reasons is answered.
    answered_reason :
        (r : Text) (rs : List Reason) (m : Text) (w : s.World) (x : AdvanceStepResult)
        → (advance_failed platform options s r (transaction_canceled_exception rs m) w).0 ≡ ok x
        → (is_condition_failure (get_elem? rs 0) ≡ true)
          ⊎ (is_condition_failure (get_elem? rs 1) ≡ true)
          ⊎ (is_condition_failure (get_elem? rs 2) ≡ true)
    unfolding advance_failed rethrow read_transaction_outcome
    answered_reason r rs m w x h = ground arith

    rethrown :
        (r : Text) (n m : Text) (w : s.World) (x : AdvanceStepResult)
        → (advance_failed platform options s r (other_error n m) w).0 ≡ ok x
        → ⊥
    unfolding advance_failed rethrow read_transaction_outcome
    rethrown r n m w x h = cc

    answered_by :
        (p : AdvanceParams) (now : ℕ) (t v : Table) (r : Result Thrown (Unit {0})) (w : s.World)
        → IsPipelineAdvance p
        → IsSound platform options v
        → Evolves platform options t v
        → Transacts (advance_writes platform options p now) v r (s.table w)
        → Answers p t
            (resume r (λ _. pure advanced) (advance_failed platform options s p.request_id) w)
    unfolding pure
    answered_by p now t v (ok _) w g q a h x k =
        inl (subst (λ y. HasNextEvent y p.request_id) (sym h.1) (advance-HasNextEvent p now v g.1))
    answered_by p now t v (err (transaction_canceled_exception rs m)) w g q a h x k =
        let e = transaction_canceled_exception rs m in
        canceled-Progressed p now t v
          (s.table (advance_failed platform options s p.request_id e w).1) rs g q a
          (subst
            (λ y.
              Evolves platform options y
                (s.table (advance_failed platform options s p.request_id e w).1))
            h.1 ((advance_failed-Safe platform options s p.request_id e).at w))
          h.0 (answered_reason p.request_id rs m w x k)
    answered_by p now t v (err (other_error n m)) w g q a h x k =
        absurd (rethrown p.request_id n m w x k)
    answered_by p now t v (err (conditional_check_failed_exception m)) w g q a h x k = elim h [ ]
    answered_by p now t v (err (app_error e)) w g q a h x k = elim h [ ]

    -- The advance of a sound table: whichever of its four answers it gives, the event for FINALIZE
    -- is stored, or the workflow is finished, or it was missing for a moment.
    pub advance_step_with_outbox-Progressed :
        (p : AdvanceParams) (now : ℕ) (w : s.World) (x : AdvanceStepResult)
        → IsPipelineAdvance p
        → IsSound platform options (s.table w)
        → let a = advance_step_with_outbox platform options s p now w in
          a.0 ≡ ok x → Progressed (s.table w) (s.table a.1) p.request_id
    unfolding advance_step_with_outbox try_catch
    advance_step_with_outbox-Progressed p now w x g q h =
        let xs = advance_writes platform options p now in
        let (v, ev, tr) = s.transact_lem xs w in
        answered_by p now (s.table w) v (s.transact xs w).0 (s.transact xs w).1 g
          (Evolves-IsSound platform options (s.table w) v q ev) ev tr x h
