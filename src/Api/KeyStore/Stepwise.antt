-- ===== src/Api/KeyStore/Stepwise.antt =====
-- The methods of SecretsApiKeyStore take steps only.
use api_proxy.Base.{
  ℕ, ◌+◌, ◌≡◌, refl, subst, Result, ok, lift, ◌>>=◌, Bool, true, false, Text, Option, none, some,
  if◌then◌else◌, throw, try_catch,
}
use api_proxy.Contracts.Errors.{Thrown}
use api_proxy.Contracts.Ids.{Platform}
use api_proxy.Api.KeyStore.{ResolvedCaller, build_index}
use api_proxy.Api.KeyStore.Store.{
  SecretsOptions, Steps, starts, settles, loads, cools, misses, here, Process, write_store,
  read_now, secret_string, loaded, load, own_load, refresh, refresh_failed, refresh_or_serve_stale,
  lookup, resolve_miss, or_resolve_miss, resolve, settle,
}
use api_proxy.Api.KeyStore.Steps.{
  Stepwise, Stepwise-pure, Stepwise-throw, Stepwise-if, Stepwise-try_catch, Stepwise-read_now,
  Stepwise-read_store, Stepwise-write, Stepwise-await, Stepwise-join, Stepwise-lifted,
  write_store-Steps, try_catch-Steps,
}

module _ {options : SecretsOptions} (p : Process options) where
  open p use {World, store}

  ok-injective : {a b : ℕ} → ◌≡◌ {A = Result Thrown ℕ} (ok a) (ok b) → a ≡ b
  ok-injective e = cc

  -- What `load` does with a text that Secrets Manager returned and the time that the clock read.
  indexed-Stepwise :
      (text : Text) (now : ℕ)
      → p.Read text now
      → Stepwise p (do
        rebuilt ← lift (build_index text now)
        at ← read_now p
        write_store p (loaded rebuilt at))
  indexed-Stepwise text now was = Stepwise-lifted p _ _ (λ index e.
      Stepwise-try_catch p _ _ _ (Stepwise-read_now p)
        (λ at. Stepwise-write p _ (λ s. loads s text now at index was e)) (Stepwise-throw p))

  timed-Steps :
      (text : Text) (v : World)
      → p.Read text (p.now v).0
      → Steps options p.Read (store v) (
          store
            ((do
              now ← read_now p
              rebuilt ← lift (build_index text now)
              at ← read_now p
              write_store p (loaded rebuilt at))
              v).1)
  timed-Steps text v was =
      try_catch-Steps p _ _ _ v ((Stepwise-read_now p).at v)
        (λ now e. (indexed-Stepwise text now (subst (p.Read text) (ok-injective e) was)).at _)
        (λ x _. (Stepwise-throw p x).at _)

  answered-Steps :
      (w : World) (r : Option Text)
      → (p.get_secret w).0 ≡ ok r
      → Steps options p.Read (store (p.get_secret w).1) (
          store
            ((do
              text ← lift (secret_string p r)
              now ← read_now p
              rebuilt ← lift (build_index text now)
              at ← read_now p
              write_store p (loaded rebuilt at))
              (p.get_secret w).1).1)
  unfolding secret_string try_catch
  answered-Steps w none e = here
  answered-Steps w (some text) e = timed-Steps text (p.get_secret w).1 (p.read_lem w text e)

  load-Stepwise : Stepwise p (load p)
  unfolding load
  load-Stepwise = record {
    at = λ w.
        try_catch-Steps p _ _ _ w (p.get_secret_lem w) (λ r e. answered-Steps w r e)
          (λ x _. (Stepwise-throw p x).at _);
  }

  pub settle-Stepwise : Stepwise p (settle p)
  settle-Stepwise = Stepwise-write p _ settles

  own_load-Stepwise : Stepwise p (own_load p)
  unfolding own_load
  own_load-Stepwise =
      Stepwise-try_catch p _ _ _ (Stepwise-write p _ starts)
        (λ _.
          Stepwise-try_catch p _ _ _ load-Stepwise
            (λ _.
              Stepwise-try_catch p _ _ _ settle-Stepwise (λ _. (Stepwise-await p))
                (Stepwise-throw p))
            (λ e.
              Stepwise-try_catch p _ _ _ settle-Stepwise
                (λ _.
                  Stepwise-try_catch p _ _ _ (Stepwise-await p) (λ _. (Stepwise-throw p) e)
                    (Stepwise-throw p))
                (Stepwise-throw p)))
        (Stepwise-throw p)

  pub refresh-Stepwise : Stepwise p (refresh p)
  unfolding refresh
  refresh-Stepwise =
      Stepwise-try_catch p _ _ _ (Stepwise-read_store p)
        (λ s. Stepwise-if p s.in_flight _ _ (Stepwise-join p) own_load-Stepwise) (Stepwise-throw p)

  refresh_failed-Steps :
      (now : ℕ) (e : Thrown) (w : World)
      → Steps options p.Read (store w) (store (refresh_failed p now e w).1)
  unfolding refresh_failed try_catch
  refresh_failed-Steps now e w = go (store w).loaded_ever refl
    where
      go :
          (b : Bool)
          → (store w).loaded_ever ≡ b
          → Steps options p.Read (store w) (
              store
                ((if b
                    then write_store p (λ t. record t {
                      next_refresh_allowed_at = now + options.negative_cache_ms;
                    })
                    else throw e)
                  w).1)
      go true e =
          write_store-Steps p
            (λ t. record t { next_refresh_allowed_at = now + options.negative_cache_ms }) w
            (cools (store w) now e)
      go false e = here

  pub refresh_failed-Stepwise : (now : ℕ) (e : Thrown) → Stepwise p (refresh_failed p now e)
  refresh_failed-Stepwise now e = record { at = refresh_failed-Steps now e }

  pub refresh_or_serve_stale-Stepwise : (now : ℕ) → Stepwise p (refresh_or_serve_stale p now)
  unfolding refresh_or_serve_stale
  refresh_or_serve_stale-Stepwise now =
      Stepwise-try_catch p _ _ _ (Stepwise-read_store p)
        (λ s.
          Stepwise-try_catch p _ _ _
            (Stepwise-if p _ _ _ (Stepwise-pure p tt) (
              Stepwise-try_catch p _ _ _ refresh-Stepwise (Stepwise-pure p)
                (refresh_failed-Stepwise now)))
            (λ _. (Stepwise-await p)) (Stepwise-throw p))
        (Stepwise-throw p)

  pub lookup-Stepwise : (d : Text) → Stepwise p (lookup p d)
  unfolding lookup
  lookup-Stepwise d = record { at = λ w. here }

  pub resolve_miss-Stepwise : (now : ℕ) (d : Text) → Stepwise p (resolve_miss p now d)
  unfolding resolve_miss
  resolve_miss-Stepwise now d =
      Stepwise-try_catch p _ _ _ (Stepwise-read_store p)
        (λ s.
          Stepwise-if p _ _ _
            (Stepwise-try_catch p _ _ _ (Stepwise-write p _ (λ t. misses t now))
              (λ _.
                Stepwise-try_catch p _ _ _ (refresh_or_serve_stale-Stepwise now)
                  (λ _. lookup-Stepwise d) (Stepwise-throw p))
              (Stepwise-throw p))
            (Stepwise-pure p _))
        (Stepwise-throw p)

  pub or_resolve_miss-Stepwise :
      (now : ℕ) (d : Text) (hit : Option ResolvedCaller) → Stepwise p (or_resolve_miss p now d hit)
  or_resolve_miss-Stepwise now d none = resolve_miss-Stepwise now d
  or_resolve_miss-Stepwise now d (some c) = (Stepwise-pure p) _

  -- Resolving a key takes steps only.
  pub resolve-Stepwise :
      (platform : Platform) (presented : Text) → Stepwise p (resolve p platform presented)
  unfolding resolve
  resolve-Stepwise platform presented =
      Stepwise-try_catch p _ _ _ (Stepwise-read_now p)
        (λ now.
          Stepwise-try_catch p _ _ _ (Stepwise-read_store p)
            (λ s.
              Stepwise-try_catch p _ _ _
                (Stepwise-if p _ _ _ (refresh_or_serve_stale-Stepwise now) (Stepwise-pure p tt))
                (λ _.
                  Stepwise-try_catch p _ _ _ (lookup-Stepwise _)
                    (λ hit. or_resolve_miss-Stepwise now _ hit) (Stepwise-throw p))
                (Stepwise-throw p))
            (Stepwise-throw p))
        (Stepwise-throw p)
