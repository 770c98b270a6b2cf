-- ===== src/Repository/Outcomes/Terminal.antt =====
-- The answers of the terminal write, `#writeTerminal`.
use api_proxy.Base.{
  ℕ, ◌≡◌, refl, Bool-cases, sym, ap, ◌∙◌, ◌⊎◌, inl, inr, true, false, Bool, Text, text_eq_refl,
  Option, none, some, is_some, List, [], ◌∷◌, get_elem?, Result, ok, err, pure, throw, try_catch,
  resume, arith, subst,
}
use api_proxy.Contracts.Errors.{
  Reason, Thrown, app_error, conditional_check_failed_exception, transaction_canceled_exception,
  other_error,
}
use api_proxy.Contracts.Ids.{Platform}
use api_proxy.Contracts.Workflow.{is_terminal}
use api_proxy.Persistence.Keys.{workflow_key}
use api_proxy.Persistence.Items.{Item, workflow_item, step_item, outbox_item, idempotency_item}
use api_proxy.Persistence.Failures.{condition_failed_at, is_condition_failure}
use api_proxy.Persistence.Dynamo.{Table, Write, holds, Blames, Transacts, AllHold, perform_all}
use api_proxy.Repository.{
  RepositoryOptions, TerminalParams, TerminalOutcome, completed_with, failed_with,
  TerminalWriteResult, applied,
}
use api_proxy.Repository.Writes.{terminal_writes, in_flight, update_workflow, finished}
use api_proxy.Repository.Commit.{Evolves, Evolves-trans}
use api_proxy.Repository.Commit.Reads.{finish-workflow}
use api_proxy.Repository.Commit.Guards.{finish_guard}
use api_proxy.Repository.Commit.Terminal.{terminal_forever}
use api_proxy.Repository.Commit.Present.{IsPresent, IsPresent-forever}
use api_proxy.Repository.Commit.Shape.{WorkflowShape}
use api_proxy.Repository.Service.{Service}
use api_proxy.Repository.Soundness.{IsSound, Evolves-IsSound}
use api_proxy.Repository.Methods.{write_terminal, read_back, terminal_failed, rethrow}
use api_proxy.Repository.Safety.{Safe-pure, Safe-try_catch}
use api_proxy.Repository.Safety.Methods.{terminal_failed-Safe, read_back-Safe}

abbrev pub is_terminal_item : Option Item → Bool
is_terminal_item (some (workflow_item i)) = is_terminal i.document.status
is_terminal_item _ = false

-- A cancelled transaction blames a request whose condition does not hold.
pub blamed_first :
    (x : Write) (xs : List Write) (t : Table) (rs : List Reason)
    → Blames (x ∷ xs) t rs
    → is_condition_failure (get_elem? rs 0) ≡ true
    → holds t x ≡ false
blamed_first x xs t [] b h = cc
blamed_first x xs t (r ∷ rs) b h = b.0 (ground arith)

module _ (platform : Platform) (options : RepositoryOptions) where
  pub terminal_item_forever :
      (t u : Table) (r : Text)
      → is_terminal_item (t (workflow_key r)) ≡ true
      → Evolves platform options t u
      → is_terminal_item (u (workflow_key r)) ≡ true
  terminal_item_forever t u r h ev = go (t (workflow_key r)) refl h
    where
      go :
          (o : Option Item)
          → t (workflow_key r) ≡ o
          → is_terminal_item o ≡ true
          → is_terminal_item (u (workflow_key r)) ≡ true
      go (some (workflow_item i)) e k =
          ap is_terminal_item (terminal_forever platform options t u r i e k ev) ∙ k
      go (some (step_item i)) e k = cc
      go (some (outbox_item i)) e k = cc
      go (some (idempotency_item i)) e k = cc
      go none e k = cc

  -- Between the tables `t` and `u` there was a moment without the workflow.
  abbrev pub WasMissing : Table → Table → Text → Type 0
  WasMissing t u r =
      (v : Table) × Evolves platform options t v
      × Evolves platform options v u
      × (v (workflow_key r) ≡ none)

  -- The workflow is COMPLETED or FAILED, or it was missing on the way.
  abbrev pub Settled : Table → Table → Text → Type 0
  Settled t u r = (is_terminal_item (u (workflow_key r)) ≡ true) ⊎ WasMissing t u r

  pub Settled-from :
      (t u v : Table) (r : Text) → Evolves platform options t u → Settled u v r → Settled t v r
  Settled-from t u v r a (inl h) = inl h
  Settled-from t u v r a (inr (x, b, c, e)) = inr (x, Evolves-trans platform options a b, c, e)

  pub Settled-to :
      (t u v : Table) (r : Text) → Settled t u r → Evolves platform options u v → Settled t v r
  Settled-to t u v r (inl h) a = inl (terminal_item_forever u v r h a)
  Settled-to t u v r (inr (x, b, c, e)) a = inr (x, b, Evolves-trans platform options c a, e)

  -- A workflow that was there has not been missing.
  pub present-Settled :
      (t u : Table) (r : Text)
      → IsPresent platform options t r
      → Settled t u r
      → is_terminal_item (u (workflow_key r)) ≡ true
  present-Settled t u r p (inl h) = h
  present-Settled t u r p (inr (v, a, b, e)) =
      let k : false ≡ true = sym (ap is_some e) ∙ IsPresent-forever platform options t v r p a in cc

  pub not_in_flight-Settled :
      (t v u : Table) (r : Text)
      → Evolves platform options t v
      → Evolves platform options v u
      → WorkflowShape r (v (workflow_key r))
      → in_flight (v (workflow_key r)) ≡ false
      → Settled t u r
  not_in_flight-Settled t v u r a b w h = go (v (workflow_key r)) refl w h
    where
      go :
          (o : Option Item)
          → v (workflow_key r) ≡ o
          → WorkflowShape r o
          → in_flight o ≡ false
          → Settled t u r
      go none e w h = inr (v, a, b, e)
      go (some (workflow_item i)) e w h =
          inl (terminal_item_forever v u r (ap is_terminal_item e ∙ ground arith) b)
      go (some (step_item i)) e w h = elim w [ ]
      go (some (outbox_item i)) e w h = elim w [ ]
      go (some (idempotency_item i)) e w h = elim w [ ]

  finished-is_terminal :
      (o : TerminalOutcome) (now : ℕ) (i : Option Item)
      → in_flight i ≡ true
      → is_terminal_item (update_workflow (finished platform options o now) i) ≡ true
  unfolding finished
  finished-is_terminal (completed_with v) now i h = ground arith
  finished-is_terminal (failed_with e) now i h = ground arith

  finish-is_terminal :
      (p : TerminalParams) (now : ℕ) (t : Table)
      → AllHold (terminal_writes platform options p now) t
      → is_terminal_item
          (perform_all (terminal_writes platform options p now) t (workflow_key p.request_id))
        ≡ true
  finish-is_terminal p now t a =
      ap is_terminal_item (finish-workflow platform options t p now p.request_id)
      ∙ rw (text_eq_refl p.request_id) (
          finished-is_terminal p.outcome now (t (workflow_key p.request_id))
            (finish_guard platform options t p now a))

  module _ (s : Service platform options) where
    -- Every answer that the terminal write may give.
    abbrev Answers : TerminalParams → Table → Result Thrown TerminalWriteResult × s.World → Type 0
    Answers p t (a, v) = (x : TerminalWriteResult) → a ≡ ok x → Settled t (s.table v) p.request_id

    rethrown :
        (r : Text) (e : Thrown) (w : s.World) (x : TerminalWriteResult)
        → condition_failed_at e 0 ≡ false
        → (terminal_failed platform options s r e w).0 ≡ ok x
        → ⊥
    unfolding terminal_failed rethrow
    rethrown r e w x c k = ground arith

    failed_by :
        (p : TerminalParams) (now : ℕ) (t v : Table) (e : Thrown) (w : s.World)
        → IsSound platform options v
        → Evolves platform options t v
        → Transacts (terminal_writes platform options p now) v (err e) (s.table w)
        → Answers p t (terminal_failed platform options s p.request_id e w)
    unfolding condition_failed_at terminal_writes
    failed_by p now t v (transaction_canceled_exception rs m) w q a h x k =
        let e = transaction_canceled_exception rs m in
        elim (Bool-cases (condition_failed_at e 0)) [
          | inl c ↦
              not_in_flight-Settled t v _ p.request_id a
                (subst
                  (λ y.
                    Evolves platform options y
                      (s.table (terminal_failed platform options s p.request_id e w).1))
                  h.1 ((terminal_failed-Safe platform options s p.request_id e).at w))
                (q.workflows p.request_id) (blamed_first _ _ v rs h.0 c)
          | inr c ↦ absurd (rethrown p.request_id e w x c k)
        ]
    failed_by p now t v (other_error n m) w q a h x k =
        absurd (rethrown p.request_id (other_error n m) w x refl k)
    failed_by p now t v (conditional_check_failed_exception m) w q a h x k = elim h [ ]
    failed_by p now t v (app_error e) w q a h x k = elim h [ ]

    written_by :
        (p : TerminalParams) (now : ℕ) (t v : Table) (r : Result Thrown (Unit {0})) (w : s.World)
        → IsSound platform options v
        → Evolves platform options t v
        → Transacts (terminal_writes platform options p now) v r (s.table w)
        → let b = resume r (λ _. read_back platform options s p.request_id) throw w in
          Answers p t (
            resume b.0
              (λ a. pure (applied a))
              (terminal_failed platform options s p.request_id)
              b.1)
    unfolding try_catch
    written_by p now t v (err e) w q a h x k = failed_by p now t v e w q a h x k
    written_by p now t v (ok _) w q a h x k = inl (
        terminal_item_forever (s.table w) _ p.request_id
          (ap (λ (f : Table). is_terminal_item (f (workflow_key p.request_id))) h.1
            ∙ finish-is_terminal p now v h.0)
          ((Safe-try_catch platform options s (read_back platform options s p.request_id)
              (λ a. pure (applied a)) (terminal_failed platform options s p.request_id)
              (read_back-Safe platform options s p.request_id) (λ a. Safe-pure platform options s _)
              (terminal_failed-Safe platform options s p.request_id)).at
            w))

    -- The terminal write of a sound table: whichever of its three answers it gives, the workflow is
    -- finished for good by then, unless it was missing for a moment.
    pub write_terminal-Settled :
        (p : TerminalParams) (now : ℕ) (w : s.World) (x : TerminalWriteResult)
        → IsSound platform options (s.table w)
        → let a = write_terminal platform options s p now w in
          a.0 ≡ ok x → Settled (s.table w) (s.table a.1) p.request_id
    unfolding write_terminal try_catch
    write_terminal-Settled p now w x q h =
        let xs = terminal_writes platform options p now in
        let (v, ev, tr) = s.transact_lem xs w in
        written_by p now (s.table w) v (s.transact xs w).0 (s.transact xs w).1
          (Evolves-IsSound platform options (s.table w) v q ev) ev tr x h
