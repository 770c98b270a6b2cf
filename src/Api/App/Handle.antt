-- ===== src/Api/App/Handle.antt =====
-- app.ts: a request from its hooks to the reply.
use api_proxy.Base.{
  ◌≡◌, refl, sym, subst, ap, true, not, ◌&&◌, Text, Option, none, some, Result, ok, err, pure,
  ◌>>=◌, arith,
}
use api_proxy.Base.Triple.{Ends, Triple, Triple-pure, Triple-if, Triple-try_catch, Triple-bind}
use api_proxy.Base.Trim.{starts_with}
use api_proxy.Contracts.Errors.{Thrown}
use api_proxy.Contracts.Ids.{Platform}
use api_proxy.Repository.{RepositoryOptions}
use api_proxy.Repository.Commit.{Evolves, here}
use api_proxy.Repository.Service.{Service}
use api_proxy.Lifecycle.{is_accepting_work}
use api_proxy.Api.KeyStore.{ResolvedCaller}
use api_proxy.Api.App.{
  Route, process_route, lookup_route, live_route, ready_route, no_route, Request, route_not_found,
  Reply, AppDependencies,
}
use api_proxy.Api.App.Replies.{send_problem, draining_reply, thrown_error, live_reply, ready_reply}
use api_proxy.Api.App.Routes.{
  api_prefix, is_get, presented_key, Hook, replied, go_on, Handler, read_lifecycle, authenticated,
  authenticate_with, authenticate, get_process, with_parsed, dispatch, after_hook, handle,
}
use api_proxy.Api.App.Handled.{IsResolvedIf, Shows, Shown, Stopped, Since}
use api_proxy.Api.App.Answers.{lookup-Shown, handle_error-Shows, with_parsed-Shown}

module _ {platform : Platform} {options : RepositoryOptions} {s : Service platform options}
    (deps : AppDependencies s) (request : Request) (start : s.World) where
  open s use {World}
  open deps use {settings, clock, api_keys}

  abbrev Told : Reply → World → Type 0
  Told = Shown deps request start

  abbrev At : World → Type 0
  At = Since deps request start

  abbrev Halted : Thrown → World → Type 0
  Halted = Stopped deps request start

  dispatch-Shown :
      (caller : Option ResolvedCaller) (route : Route)
      → IsResolvedIf deps request start caller
      → let m : Handler deps Reply = elim route [
        | process_route ↦ with_parsed deps caller request
        | lookup_route id ↦ get_process deps caller id
        | live_route ↦ read_lifecycle deps >>= λ state. pure (live_reply state)
        | ready_route ↦ read_lifecycle deps >>= λ state. pure (ready_reply state)
        | no_route ↦ pure (record { status = 404; retry_after = none; body = route_not_found })
      ] in
        Triple At m Told Halted
  unfolding with_parsed live_reply ready_reply
  dispatch-Shown caller process_route r = with_parsed-Shown deps request start caller request.body r
  dispatch-Shown caller (lookup_route id) r = lookup-Shown deps request start caller id r
  dispatch-Shown caller live_route r =
      Triple-bind (λ state. At) _ _ (record { at = λ w h. h })
        (λ state. Triple-pure (live_reply state) (λ w h. (h, tt)))
  dispatch-Shown caller ready_route r =
      Triple-bind (λ state. At) _ _ (record { at = λ w h. h })
        (λ state. Triple-pure (ready_reply state) (λ w h. (h, tt)))
  dispatch-Shown caller no_route r = Triple-pure _ (λ w h. (h, tt))

  abbrev HookTold : Hook → World → Type 0
  HookTold (replied x) w = Told x w
  HookTold (go_on caller) w = At w × IsResolvedIf deps request start caller

  Ends-resolved :
      (presented : Text) (v : World) (x : Result Thrown (Option ResolvedCaller))
      → starts_with api_prefix request.url ≡ true
      → presented_key request.authorization ≡ some presented
      → api_keys.resolve presented start ≡ (x, v)
      → At v
      → Ends (λ o u. At u × IsResolvedIf deps request start o) Halted x v
  Ends-resolved presented v (ok none) url key e h = (h, tt)
  Ends-resolved presented v (ok (some c)) url key e h = (h, (presented, url, key, ap (λ y. y.0) e))
  Ends-resolved presented v (err x) url key e h = h

  -- The request has just begun.
  abbrev Begins : World → Type 0
  Begins v = v ≡ start

  Begins-At : (v : World) → Begins v → At v
  Begins-At v e = subst At (sym e) here

  authenticate_with-Told :
      (o : Option Text)
      → starts_with api_prefix request.url ≡ true
      → presented_key request.authorization ≡ o
      → Triple Begins (authenticate_with deps o) HookTold Halted
  unfolding authenticate_with authenticated send_problem
  authenticate_with-Told none url e = Triple-pure _ (λ w h. (Begins-At w h, refl))
  authenticate_with-Told (some presented) url e =
      Triple-bind (λ o u. At u × IsResolvedIf deps request start o) _ _
        (record {
          at = λ w h.
              subst
                (λ u.
                  let a = api_keys.resolve presented u in
                  Ends (λ o v. At v × IsResolvedIf deps request start o) Halted a.0 a.1)
                (sym h)
                (Ends-resolved presented _ _ url e refl (api_keys.resolve_lem presented start));
        })
        (λ o. answered o)
    where
      answered :
          (o : Option ResolvedCaller)
          → Triple
              (λ u. At u × IsResolvedIf deps request start o)
              (pure (authenticated deps o))
              HookTold
              Halted
      answered none = Triple-pure _ (λ w h. (h.0, refl))
      answered (some c) = Triple-pure _ (λ w h. h)

  authenticate-Told : Triple Begins (authenticate deps request) HookTold Halted
  unfolding authenticate draining_reply
  authenticate-Told =
      Triple-if (not (starts_with api_prefix request.url)) _ _
        (λ _. Triple-pure (go_on none) (λ w h. (Begins-At w h, tt)))
        (λ e.
          Triple-bind (λ state. Begins) _ _ (record { at = λ w h. h })
            (λ state.
              Triple-if (not (is_accepting_work state) && not (is_get request.method)) _ _
                (λ _. Triple-pure _ (λ w h. (Begins-At w h, refl)))
                (λ _. authenticate_with-Told _ (ground arith) refl)))

  after_hook-Told : (x : Hook) → Triple (HookTold x) (after_hook deps request x) Told Halted
  unfolding after_hook dispatch
  after_hook-Told (replied x) = Triple-pure x (λ w h. h)
  after_hook-Told (go_on caller) = record {
    at = λ w h. (dispatch-Shown caller request.route h.1).at w h.0;
  }

  abbrev Never : Thrown → World → Type 0
  Never e w = ⊥

  pub handle-Told : Triple Begins (handle deps request) Told Never
  unfolding handle
  handle-Told =
      Triple-try_catch Told Halted _ _ _
        (Triple-bind HookTold _ _ authenticate-Told after_hook-Told) (λ x. Triple-pure x (λ w h. h))
        (λ e. Triple-pure _ (λ w h. (h, handle_error-Shows deps request start (thrown_error e) w)))

  replied_with :
      (x : Result Thrown Reply) (w : World)
      → Ends Told Never x w
      → (reply : Reply) × (x ≡ ok reply) × At w × Shows deps request start reply w
  replied_with (ok reply) w h = (reply, refl, h.0, h.1)
  replied_with (err e) w h = absurd h

module _ {platform : Platform} {options : RepositoryOptions} {s : Service platform options}
    (deps : AppDependencies s) where
  -- Every request is answered and makes only transitions of the workflow table. The answer shows
  -- the state of a workflow only to a caller that the key of the request is resolved to, a result
  -- only with status 200 and as the result of a finished workflow that is in the table by then, and
  -- a problem with the problem's own status.
  pub handle_told :
      (request : Request) (w : s.World)
      → let a = handle deps request w in
        (reply : Reply) × (a.0 ≡ ok reply)
        × Evolves platform options (s.table w) (s.table a.1)
        × Shows deps request w reply a.1
  handle_told request w = replied_with deps request w _ _ ((handle-Told deps request w).at w refl)
