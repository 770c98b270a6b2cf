-- ===== src/Finalizer/Reconcile.antt =====
-- The resumed attempt in apps/finalizer/src/handler.ts.
use api_proxy.Base.{
  ℕ, ◌≡◌, refl, ◌≢◌, Text, Option, none, some, Result, ok, err, throw, try_catch, resume, ◌>>=◌, ap,
  ◌∙◌,
}
use api_proxy.Contracts.Errors.{Thrown}
use api_proxy.Contracts.Ids.{Platform}
use api_proxy.Contracts.Workflow.{StepRecord, StepStatus}
use api_proxy.Contracts.Domain.{
  Enrichment, OperationInput, ProviderOperationResponse, ProviderStatus,
}
use api_proxy.Repository.{RepositoryOptions, resumed}
use api_proxy.Repository.Service.{Service}
use api_proxy.Repository.Clock.{Clock}
use api_proxy.Finalizer.Provider.{ProviderClient}
use api_proxy.Finalizer.Handler.{
  complete_within, write_outcome, write_terminal_state, reconcile, execute_unless_found, act,
  provider_request,
}

module _ {platform : Platform} {options : RepositoryOptions} (s : Service platform options)
    (clock : Clock platform options s) (p q : ProviderClient platform options s) (limit : ℕ) where
  same_write :
      (o : ProviderStatus) (r : Text) (x : ProviderOperationResponse) (e : Enrichment) (w : s.World)
      → write_outcome s clock p limit o r x e w ≡ write_outcome s clock q limit o r x e w
  unfolding write_outcome complete_within
  same_write ProviderStatus.settled r x e w = refl
  same_write ProviderStatus.declined r x e w = refl

  -- The rest of the attempt, with the one provider and with the other.
  same_rest :
      (r ref : Text) (i : OperationInput) (e : Enrichment)
      (a : Result Thrown (Option ProviderOperationResponse)) (v : s.World)
      → a ≢ ok none
      → resume a
          (λ found. execute_unless_found s clock p limit ref (provider_request i e) found >>= λ x.
            write_terminal_state s clock p limit r x e)
          throw
          v
        ≡ resume a
            (λ found. execute_unless_found s clock q limit ref (provider_request i e) found >>= λ x.
              write_terminal_state s clock q limit r x e)
            throw
            v
  unfolding try_catch execute_unless_found write_terminal_state
  same_rest r ref i e (err x) v n = refl
  same_rest r ref i e (ok none) v n = absurd (n refl)
  same_rest r ref i e (ok (some x)) v n = same_write x.status r x e v

  -- A resumed attempt whose lookup finds the operation, or fails, does not depend on `execute` at
  -- all: two providers that answer this lookup alike give the same outcome, whatever else they do.
  pub resumed-same :
      (r ref : Text) (i : OperationInput) (e : Enrichment) (step : StepRecord)
      (previous : StepStatus) (w : s.World)
      → p.lookup ref w ≡ q.lookup ref w
      → (p.lookup ref w).0 ≢ ok none
      → act s clock p limit r ref i e (resumed step previous) w
        ≡ act s clock q limit r ref i e (resumed step previous) w
  unfolding act reconcile try_catch
  resumed-same r ref i e step previous w h n =
      same_rest r ref i e (p.lookup ref w).0 (p.lookup ref w).1 n
      ∙ ap
          (λ (a : Result Thrown (Option ProviderOperationResponse) × s.World).
            resume a.0
              (λ found.
                execute_unless_found s clock q limit ref (provider_request i e) found >>= λ x.
                write_terminal_state s clock q limit r x e)
              throw a.1)
          h
