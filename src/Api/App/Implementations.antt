-- ===== src/Api/App/Implementations.antt =====
-- The interfaces of app.ts, implemented: DynamoWorkflowWaiter and InlineApiKeyStore.
use api_proxy.Base.{
  ℕ, suc, ◌-◌, ◌≡◌, ◌≢◌, refl, ap, Text, true, Option, none, some, Result, ok, err, arith,
}
use api_proxy.Contracts.Errors.{Thrown}
use api_proxy.Contracts.Ids.{Platform, tenant_id_schema}
use api_proxy.Repository.{RepositoryOptions}
use api_proxy.Repository.Commit.{here}
use api_proxy.Repository.Service.{Service}
use api_proxy.Repository.Clock.{Clock}
use api_proxy.Waiter.{
  Floats, PollingSettings, WaitResult, terminal, timed_out, aborted, missing, Timer, Progress,
}
use api_proxy.Waiter.Poll.{wait_for_terminal_state}
use api_proxy.Waiter.Told.{Told}
use api_proxy.Waiter.Found.{IsLate, wait-Told}
use api_proxy.Waiter.Ends.{wait_ends}
use api_proxy.Waiter.Safety.{wait-Safe}
use api_proxy.Api.KeyStore.{Index, ResolvedCaller, inline_store, inline_resolve}
use api_proxy.Api.KeyStore.Tenants.{build_index-tenant}
use api_proxy.Api.App.{ApiKeyStore, WorkflowWaiter, WaitedFor}

-- The result of a loop that did not run out of fuel.
returned : {A : Type 0} (x : Result Thrown (Option A)) → x ≢ ok none → Result Thrown A
returned (ok (some a)) n = ok a
returned (ok none) n = absurd (n refl)
returned (err e) n = err e

returned-ok :
    {A : Type 0} (x : Result Thrown (Option A)) (n : x ≢ ok none) (a : A)
    → returned x n ≡ ok a
    → x ≡ ok (some a)
unfolding returned
returned-ok (ok (some b)) n a h = let same : b ≡ a = ground arith in ap (λ y. ok (some y)) same
returned-ok (ok none) n a h = absurd (n refl)
returned-ok (err e) n a h = cc

module _ {platform : Platform} {options : RepositoryOptions} {s : Service platform options} where
  module _ {floats : Floats} (clock : Clock platform options s) (timer : Timer s floats)
      (polling : PollingSettings floats) (progress : Progress clock timer) where
    -- A round for each millisecond up to the deadline, and one.
    abbrev rounds : ℕ → s.World → ℕ
    rounds deadline_at w = suc (deadline_at - progress.time w)

    not_exhausted :
        (request_id : Text) (deadline_at : ℕ) (w : s.World)
        → (wait_for_terminal_state clock timer polling request_id deadline_at
            (rounds deadline_at w)
            w).0
          ≢ ok none
    not_exhausted request_id deadline_at w =
        wait_ends clock timer progress polling request_id deadline_at (rounds deadline_at w) w
          (omega arith) (omega arith)

    waited_for :
        (request_id : Text) (deadline_at : ℕ) (w v : s.World) (r : WaitResult)
        → Told clock timer polling request_id deadline_at
            (s.table w)
            (IsLate clock timer polling request_id deadline_at progress)
            r
            v
        → WaitedFor s (s.table v) request_id r
    waited_for request_id deadline_at w v (terminal d n) h = h
    waited_for request_id deadline_at w v (timed_out n) h = tt
    waited_for request_id deadline_at w v (aborted n) h = tt
    waited_for request_id deadline_at w v (missing n) h = tt

    pub dynamo_workflow_waiter : WorkflowWaiter s
    dynamo_workflow_waiter = record {
      wait = λ request_id deadline_at w. (
        returned _ (not_exhausted request_id deadline_at w),
        (wait_for_terminal_state clock timer polling request_id deadline_at (rounds deadline_at w)
            w).1,
      );
      wait_lem = λ request_id deadline_at w.
          (wait-Safe clock timer polling request_id deadline_at (rounds deadline_at w)).at w;
      wait_waited = λ request_id deadline_at w r e. waited_for request_id deadline_at w _ r (
          wait-Told clock timer polling request_id deadline_at progress (rounds deadline_at w) w r
            (returned-ok _ (not_exhausted request_id deadline_at w) r e));
    }

-- The inline store of a document that was accepted at `now`.
module _ (platform : Platform) (document : Text) (now : ℕ) (index : Index)
    (accepted : inline_store document now ≡ ok index) where
  inline_tenant :
      (presented : Text) (c : ResolvedCaller)
      → inline_resolve platform index presented ≡ some c
      → tenant_id_schema c.tenant_id ≡ true
  unfolding inline_resolve inline_store
  inline_tenant presented c e =
      build_index-tenant document now index (platform.sha256_hex presented) c accepted e

  pub inline_api_key_store :
      {options : RepositoryOptions} (s : Service platform options) → ApiKeyStore s
  inline_api_key_store s = record {
    resolve = λ presented w. (ok (inline_resolve platform index presented), w);
    resolve_lem = λ presented w. here;
    resolve_valid = λ presented w c e. inline_tenant presented c (ground arith);
  }
