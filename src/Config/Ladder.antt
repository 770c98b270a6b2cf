-- ===== src/Config/Ladder.antt =====
-- What the checks of config.ts leave through.
use api_proxy.Base.{◌+◌, ◌*◌, ◌≤◌, ◌<◌, ◌≡◌, ◌↔◌, refl, List, [], ◌∷◌, ◌++◌, none, arith}
use api_proxy.Config.{Environment, Variable, Config}
use api_proxy.Config.Checks.{ladder_issues, deployed_issues, local_issues, refinement_issues}

-- From the first sleep of a poll to the keep-alive, each time is less than the next.
pub record IsLadder (c : Config) : Type 0 where
  pub delay : c.polling.initial_delay_ms ≤ c.polling.max_delay_ms
  pub poll : c.polling.max_delay_ms < c.http.sync_wait_timeout_ms
  pub wait : c.http.sync_wait_timeout_ms < c.http.request_timeout_ms
  pub request : c.http.request_timeout_ms < c.http.alb_idle_timeout_ms
  pub balancer : c.http.alb_idle_timeout_ms < c.http.keep_alive_timeout_ms
  pub headers : c.http.keep_alive_timeout_ms ≤ c.http.headers_timeout_ms
  pub client : c.http.alb_idle_timeout_ms < c.http.client_recommended_timeout_ms
  pub drain : c.http.request_timeout_ms ≤ c.http.shutdown_drain_ms
  pub readiness : c.http.shutdown_readiness_delay_ms < c.http.shutdown_drain_ms
  pub deadline : c.http.sync_wait_timeout_ms ≤ c.business.deadline_ms
  pub item : c.business.max_result_bytes + c.business.max_request_payload_bytes ≤ 380 * 1024

-- Only `local` may be given keys inline, or endpoints of its own.
abbrev pub IsDeployable : Environment → Config → Type 0
IsDeployable Environment.local c = Unit {0}
IsDeployable _ c =
    (c.auth.inline_keys ≡ none) × (c.persistence.endpoint ≡ none) × (c.messaging.endpoint ≡ none)

ladder_issues-nil : (c : Config) → ladder_issues c ≡ [] → IsLadder c
unfolding ladder_issues
ladder_issues-nil c h = ground arith

ladder_issues-IsLadder : (c : Config) → IsLadder c → ladder_issues c ≡ []
unfolding ladder_issues
ladder_issues-IsLadder c l = ground arith

deployed_issues-nil :
    (c : Config)
    → (deployed_issues c ≡ []) ↔ (
        (c.auth.inline_keys ≡ none)
        × (c.persistence.endpoint ≡ none)
        × (c.messaging.endpoint ≡ none))
unfolding deployed_issues
deployed_issues-nil c = (λ h. ground arith, λ h. ground arith)

append-nil_iff : (us vs : List Variable) → (us ++ vs ≡ []) ↔ ((us ≡ []) × (vs ≡ []))
append-nil_iff [] vs = (λ h. (refl, h), λ h. h.1)
append-nil_iff (u ∷ us) vs = (λ h. cc, λ h. cc)

local_issues-nil :
    (e : Environment) (c : Config) → (local_issues e (deployed_issues c) ≡ []) ↔ IsDeployable e c
local_issues-nil Environment.local c = (λ h. tt, λ h. refl)
local_issues-nil Environment.dev c = deployed_issues-nil c
local_issues-nil Environment.staging c = deployed_issues-nil c
local_issues-nil Environment.production c = deployed_issues-nil c

pub refinement_issues-nil :
    (c : Config) → (refinement_issues c ≡ []) ↔ (IsLadder c × IsDeployable c.env c)
unfolding refinement_issues
refinement_issues-nil c = (
  λ h.
      let (p, q) = (append-nil_iff (ladder_issues c) _).0 h in
      (ladder_issues-nil c p, (local_issues-nil c.env c).0 q),
  λ h.
      (append-nil_iff (ladder_issues c) _).1
        (ladder_issues-IsLadder c h.0, (local_issues-nil c.env c).1 h.1),
)
