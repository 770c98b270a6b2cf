-- ===== src/Repository/Safety.antt =====
-- The methods of workflow-repository.ts against the transitions of Commit: the rules that the
-- children use.
pub mod Methods
pub mod Advance
pub mod Chains
use api_proxy.Base.{
  ℕ, ◌≡◌, refl, sym, ap, subst, ◌∙◌, inl, inr, Bool, true, false, ◌&&◌, ◌||◌, not, Text, text_eq,
  text_eq→eq, Option, none, some, is_some, List, [], ◌∷◌, Result, ok, err, Exec, pure, throw, lift,
  try_catch, resume, if◌then◌else◌, arith,
}
use api_proxy.Contracts.Errors.{
  Thrown, app_error, conditional_check_failed_exception, transaction_canceled_exception,
  other_error,
}
use api_proxy.Contracts.Ids.{Platform}
use api_proxy.Contracts.Json.{Json}
use api_proxy.Contracts.Workflow.{StepId, WorkflowError}
use api_proxy.Persistence.Items.{Item}
use api_proxy.Persistence.Keys.{TableKey, step_key}
use api_proxy.Persistence.Keys.Apart.{same_step→eq}
use api_proxy.Persistence.Dynamo.{
  Table, Write, Updates, Transacts, Reads, AllHold, perform, perform_all, holds,
}
use api_proxy.Repository.{
  RepositoryOptions, CreateWorkflowInput, AdvanceParams, TerminalParams, completed_with,
  failed_with,
}
use api_proxy.Repository.Writes.{
  create_writes, begin_write, mark_unknown_write, advance_writes, terminal_writes, publish_write,
}
use api_proxy.Repository.Commit.{
  Commit, Evolves, create, begin, mark_unknown, advance, finish, publish, here, next, Evolves-trans,
  Evolves-induction, IsValidInput, IsPipelineAdvance, CompletesAt,
}
use api_proxy.Repository.Service.{Service}

module _ (platform : Platform) (options : RepositoryOptions) where
  moved : (t u : Table) → u ≡ t → Evolves platform options t u
  moved t u e = subst (Evolves platform options t) (sym e) here

  pub transacted :
      (xs : List Write) (t u : Table) (r : Result Thrown (Unit {0}))
      → (AllHold xs t → u ≡ perform_all xs t → Commit platform options t u)
      → Transacts xs t r u
      → Evolves platform options t u
  transacted xs t u (ok _) mk h = next here (mk h.0 h.1)
  transacted xs t u (err (transaction_canceled_exception rs m)) mk h = moved t u h.1
  transacted xs t u (err (other_error n m)) mk (inl e) = moved t u e
  transacted xs t u (err (other_error n m)) mk (inr h) = next here (mk h.0 h.1)
  transacted xs t u (err (conditional_check_failed_exception m)) mk h = elim h [ ]
  transacted xs t u (err (app_error e)) mk h = elim h [ ]

  updated :
      (x : Write) (t u : Table) (r : Result Thrown (Option Item))
      → (holds t x ≡ true → u ≡ perform x t → Commit platform options t u)
      → Updates x t r u
      → Evolves platform options t u
  updated x t u (ok _) mk h = next here (mk h.0 h.2)
  updated x t u (err (conditional_check_failed_exception m)) mk h = moved t u h.1
  updated x t u (err (other_error n m)) mk (inl e) = moved t u e
  updated x t u (err (other_error n m)) mk (inr h) = next here (mk h.0 h.1)
  updated x t u (err (transaction_canceled_exception rs m)) mk h = elim h [ ]
  updated x t u (err (app_error e)) mk h = elim h [ ]

  read :
      (k : TableKey) (t u : Table) (r : Result Thrown (Option Item))
      → Reads k t r u
      → Evolves platform options t u
  read k t u (ok _) h = moved t u h.1
  read k t u (err (other_error n m)) h = moved t u h
  read k t u (err (conditional_check_failed_exception m)) h = elim h [ ]
  read k t u (err (transaction_canceled_exception rs m)) h = elim h [ ]
  read k t u (err (app_error e)) h = elim h [ ]

  module _ (s : Service platform options) where
    -- What `m` does to the table, from the world `w`, is a sequence of transitions.
    pub record Safe {A : Type 0} (m : Exec s.World Thrown A) : Type 0 where
      pub at : (w : s.World) → Evolves platform options (s.table w) (s.table (m w).1)

    module _ {A : Type 0} where
      pub Safe-pure : (a : A) → Safe (pure a)
      unfolding pure
      Safe-pure a = record { at = λ w. here }

      pub Safe-throw : (e : Thrown) → Safe (throw {A = A} e)
      unfolding throw
      Safe-throw e = record { at = λ w. here }

      pub Safe-lift : (r : Result Thrown A) → Safe (lift r)
      unfolding lift
      Safe-lift r = record { at = λ w. here }

      pub Safe-if :
          (b : Bool) (m n : Exec s.World Thrown A) → Safe m → Safe n → Safe (if b then m else n)
      Safe-if true m n p q = p
      Safe-if false m n p q = q

    module _ {A B : Type 0} where
      Safe-resume :
          (r : Result Thrown A) (f : A → Exec s.World Thrown B) (h : Thrown → Exec s.World Thrown B)
          → ((a : A) → Safe (f a))
          → ((e : Thrown) → Safe (h e))
          → (w : s.World) → Evolves platform options (s.table w) (s.table (resume r f h w).1)
      Safe-resume (ok a) f h p q w = (p a).at w
      Safe-resume (err e) f h p q w = (q e).at w

      pub Safe-try_catch :
          (m : Exec s.World Thrown A) (f : A → Exec s.World Thrown B)
          (h : Thrown → Exec s.World Thrown B)
          → Safe m
          → ((a : A) → Safe (f a))
          → ((e : Thrown) → Safe (h e))
          → Safe (try_catch m f h)
      unfolding try_catch
      Safe-try_catch m f h k p q = record {
        at = λ w.
            let (r, w') = m w in Evolves-trans platform options (k.at w) (Safe-resume r f h p q w');
      }

    pub Safe-get : (k : TableKey) → Safe (s.get k)
    Safe-get k = record {
      at = λ w.
          let (t, ev, rd) = s.get_lem k w in
          Evolves-trans platform options ev (read k t _ (s.get k w).0 rd);
    }

    pub Safe-update :
        (x : Write)
        → ((t u : Table) → holds t x ≡ true → u ≡ perform x t → Commit platform options t u)
        → Safe (s.update x)
    Safe-update x mk = record {
      at = λ w.
          let (t, ev, up) = s.update_lem x w in
          Evolves-trans platform options ev (updated x t _ (s.update x w).0 (mk t _) up);
    }

    pub Safe-transact :
        (xs : List Write)
        → ((t u : Table) → AllHold xs t → u ≡ perform_all xs t → Commit platform options t u)
        → Safe (s.transact xs)
    Safe-transact xs mk = record {
      at = λ w.
          let (t, ev, tr) = s.transact_lem xs w in
          Evolves-trans platform options ev (transacted xs t _ (s.transact xs w).0 (mk t _) tr);
    }
