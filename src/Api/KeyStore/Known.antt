-- ===== src/Api/KeyStore/Known.antt =====
-- A caller is rejected on the strength of a document only.
use api_proxy.Base.{
  ℕ, ◌+◌, ◌≡◌, ◌≤◌, inl, inr, refl, sym, ap, subst, ◌∙◌, true, false, ◌&&◌, &&_iff, Text, Option,
  ltb, leb, Result, ok, err, arith,
}
use api_proxy.Base.Triple.{
  Ends, Triple, Triple-pure, Triple-throw, Triple-if, Triple-try_catch, Triple-bind,
  Triple-returned,
}
use api_proxy.Contracts.Errors.{Thrown}
use api_proxy.Contracts.Ids.{Platform}
use api_proxy.Api.KeyStore.{Index, ResolvedCaller}
use api_proxy.Api.KeyStore.Store.{
  SecretsOptions, KeyStore, loaded, Process, Method, read_now, load, own_load, refresh,
  refresh_failed, refresh_or_serve_stale, resolve, settle,
}
use api_proxy.Api.KeyStore.Steps.{IsValid, Stepwise}
use api_proxy.Api.KeyStore.Stepwise.{settle-Stepwise, lookup-Stepwise, or_resolve_miss-Stepwise}
use api_proxy.Api.KeyStore.Loaded.{
  Loaded, Anyhow, stays-Loaded, read_store-same, await-Loaded, write-Loaded,
}

module _ {options : SecretsOptions} (p : Process options) where
  open p use {World, store}

  Ends-Anyhow :
      {A : Type 0} (r : Result Thrown A) (v : World)
      → Ends (λ (a : A) (w : World). Unit {0}) (Anyhow p) r v
  Ends-Anyhow (ok a) v = tt
  Ends-Anyhow (err e) v = tt

  pub any_world :
      {A : Type 0} {P : World → Type 0} (m : Method p A) → Triple P m (λ a w. Unit {0}) (Anyhow p)
  any_world m = record { at = λ w _. Ends-Anyhow (m w).0 (m w).1 }

  Ends-Loaded :
      {A : Type 0} (r : Result Thrown A) (v : World)
      → Ends (λ (a : A). Loaded p) (λ e. Loaded p) r v
      → Ends (λ (a : A). Loaded p) (Anyhow p) r v
  Ends-Loaded (ok a) v h = h
  Ends-Loaded (err e) v h = tt

  still-Loaded :
      {A : Type 0} (m : Method p A) → Stepwise p m → Triple (Loaded p) m (λ a. Loaded p) (Anyhow p)
  still-Loaded m k = record {
    at = λ w h. Ends-Loaded (m w).0 (m w).1 ((stays-Loaded p m k).at w h);
  }

  load-Loaded : {P : World → Type 0} → Triple P (load p) (λ a. Loaded p) (Anyhow p)
  unfolding load
  load-Loaded = Triple-bind _ _ _ (any_world _) (λ r. Triple-bind _ _ _ (any_world _) (λ text.
      Triple-bind _ _ _ (any_world _) (λ now. Triple-bind _ _ _ (any_world _) (λ rebuilt.
        Triple-bind _ _ _ (any_world _)
          (λ at. write-Loaded p (loaded rebuilt at) (λ w h. loaded_lem rebuilt at (store w)))))))
    where
      loaded_lem : (i : Index) (at : ℕ) (s : KeyStore) → (loaded i at s).loaded_ever ≡ true
      loaded_lem i at s = refl

  own_load-Loaded : {P : World → Type 0} → Triple P (own_load p) (λ a. Loaded p) (Anyhow p)
  unfolding own_load
  own_load-Loaded = Triple-bind _ _ _ (any_world _) (λ _.
      Triple-try_catch (λ a. Loaded p) (Anyhow p) _ _ _ load-Loaded
        (λ _.
          Triple-bind (λ a. Loaded p) _ _ (still-Loaded (settle p) (settle-Stepwise p))
            (λ _. await-Loaded p))
        (λ e.
          Triple-bind _ _ _ (any_world _)
            (λ _. Triple-bind _ _ _ (any_world _) (λ _. Triple-throw e (λ w h. tt)))))

  join-Ends :
      (w : World) (r : Result Thrown (Unit {0}))
      → (p.join w).0 ≡ r
      → Ends (λ (a : Unit {0}). Loaded p) (Anyhow p) r (p.join w).1
  join-Ends w (ok tt) e = p.join_loaded w e
  join-Ends w (err x) e = tt

  join-Loaded : {P : World → Type 0} → Triple P p.join (λ a. Loaded p) (Anyhow p)
  join-Loaded = record { at = λ w _. join-Ends w (p.join w).0 refl }

  refresh-Loaded : {P : World → Type 0} → Triple P (refresh p) (λ a. Loaded p) (Anyhow p)
  unfolding refresh
  refresh-Loaded =
      Triple-bind (λ s w. Unit {0}) _ _ (any_world _)
        (λ s. Triple-if s.in_flight _ _ (λ _. join-Loaded) (λ _. own_load-Loaded))

  refresh_failed-known :
      (now : ℕ) (e : Thrown)
      → Triple (λ w. Unit {0}) (refresh_failed p now e) (λ a. Loaded p) (Anyhow p)
  unfolding refresh_failed
  refresh_failed-known now e =
      Triple-bind (λ s w. (s ≡ store w) × Unit {0}) _ _ (read_store-same p)
        (λ s.
          Triple-if s.loaded_ever _ _
            (λ l.
              write-Loaded p
                (λ t. record t { next_refresh_allowed_at = now + options.negative_cache_ms })
                (λ w h. ap (λ x. x.loaded_ever) (sym h.0) ∙ l))
            (λ _. Triple-throw e (λ w h. tt)))

  refresh_or_serve_stale-known :
      {P : World → Type 0} (now : ℕ)
      → Triple P (refresh_or_serve_stale p now) (λ a. Loaded p) (Anyhow p)
  unfolding refresh_or_serve_stale
  refresh_or_serve_stale-known {P} now =
      Triple-bind (λ s w. (s ≡ store w) × P w) _ _ (read_store-same p)
        (λ s.
          Triple-bind (λ a. Loaded p) _ _
            (Triple-if (s.loaded_ever && ltb now s.next_refresh_allowed_at) _ _
              (λ l.
                Triple-pure tt
                  (λ w h. ap (λ x. x.loaded_ever) (sym h.0) ∙ ((&&_iff s.loaded_ever _).0 l).0))
              (λ _.
                Triple-try_catch (λ a. Loaded p) (Anyhow p) _ _ _ refresh-Loaded
                  (λ a. Triple-pure a (λ w h. h)) (λ e. refresh_failed-known now e)))
            (λ _. await-Loaded p))

  abbrev Waited : World → Type 0
  Waited w = IsValid p.Read (store w) × (options.cache_ttl_ms ≤ (p.now w).0)

  abbrev ReadAt : ℕ → World → Type 0
  ReadAt n w = IsValid p.Read (store w) × (options.cache_ttl_ms ≤ n)

  read_now-ReadAt : Triple Waited (read_now p) ReadAt (Anyhow p)
  read_now-ReadAt = record { at = λ w h. (subst (IsValid p.Read) (sym (p.now_lem w)) h.0, h.1) }

  -- A store that was never loaded counts as loaded at 0.
  recently_loaded :
      (s : KeyStore) (n : ℕ)
      → IsValid p.Read s
      → options.cache_ttl_ms ≤ n
      → leb (s.loaded_at + options.cache_ttl_ms) n ≡ false
      → s.loaded_ever ≡ true
  recently_loaded s n v long e = elim v.fresh [ inl l ↦ l | inr z ↦ absurd (ground arith) ]

  resolve-known :
      (platform : Platform) (presented : Text)
      → Triple Waited (resolve p platform presented) (λ r. Loaded p) (Anyhow p)
  unfolding resolve
  resolve-known platform presented = Triple-bind ReadAt _ _ read_now-ReadAt (λ n.
      Triple-bind (λ s w. (s ≡ store w) × ReadAt n w) _ _ (read_store-same p)
        (λ s.
          Triple-bind (λ a. Loaded p) _ _
            (Triple-if (leb (s.loaded_at + options.cache_ttl_ms) n) _ _
              (λ _. refresh_or_serve_stale-known n)
              (λ e. Triple-pure tt (λ w h.
                ap (λ x. x.loaded_ever) (sym h.0)
                ∙ recently_loaded s n (subst (IsValid p.Read) (sym h.0) h.1.0) h.1.1 e)))
            (λ _.
              Triple-bind (λ hit. Loaded p) _ _ (still-Loaded _ (lookup-Stepwise p _))
                (λ hit. still-Loaded _ (or_resolve_miss-Stepwise p n _ hit)))))

  -- Where the clock reads at least the cache's lifetime, a key is answered, with a caller or with
  -- none, only by a store that has loaded a document: no caller is rejected because Secrets Manager
  -- could not be read.
  pub resolve_known :
      (platform : Platform) (presented : Text) (w : World) (r : Option ResolvedCaller)
      → IsValid p.Read (store w)
      → options.cache_ttl_ms ≤ (p.now w).0
      → (resolve p platform presented w).0 ≡ ok r
      → (store (resolve p platform presented w).1).loaded_ever ≡ true
  resolve_known platform presented w r v long e =
      Triple-returned w r (resolve-known platform presented) (v, long) e
