-- ===== src/Api/KeyStore/Loaded.antt =====
-- What a loaded document gives: `resolve` does not throw, and only then does it reject a caller.
use api_proxy.Base.{
  ℕ, ◌+◌, ◌≡◌, refl, sym, subst, true, ◌&&◌, Text, Option, none, some, ltb, leb, Result, ok, err,
  arith,
}
use api_proxy.Base.Triple.{
  Ends, Triple, Triple-pure, Triple-throw, Triple-if, Triple-try_catch, Triple-bind,
}
use api_proxy.Contracts.Errors.{Thrown}
use api_proxy.Contracts.Ids.{Platform}
use api_proxy.Api.KeyStore.{ResolvedCaller}
use api_proxy.Api.KeyStore.Store.{
  SecretsOptions, KeyStore, Process, Method, read_store, write_store, await_settled, refresh,
  refresh_failed, refresh_or_serve_stale, lookup, resolve_miss, or_resolve_miss, resolve,
}
use api_proxy.Api.KeyStore.Steps.{Steps-loaded, Stepwise}
use api_proxy.Api.KeyStore.Stepwise.{refresh-Stepwise}

module _ {options : SecretsOptions} (p : Process options) where
  open p use {World, store}

  abbrev pub Loaded : World → Type 0
  Loaded w = (store w).loaded_ever ≡ true

  abbrev Never : Thrown → World → Type 0
  Never e w = ⊥

  abbrev pub Anyhow : Thrown → World → Type 0
  Anyhow e w = Unit {0}

  Ends-constant :
      {A : Type 0} (P : World → Type 0) (r : Result Thrown A) (v : World)
      → P v
      → Ends (λ (a : A) (w : World). P w) (λ e w. P w) r v
  Ends-constant P (ok a) v h = h
  Ends-constant P (err e) v h = h

  -- A loaded store stays loaded.
  pub stays-Loaded :
      {A : Type 0} (m : Method p A) → Stepwise p m → Triple Loaded m (λ a. Loaded) (λ e. Loaded)
  stays-Loaded m k = record {
    at = λ w h. Ends-constant Loaded (m w).0 (m w).1 (Steps-loaded (k.at w) h);
  }

  read_store-Loaded :
      {E : Thrown → World → Type 0}
      → Triple Loaded (read_store p) (λ s w. (s ≡ store w) × Loaded w) E
  read_store-Loaded = record { at = λ w h. (refl, h) }

  pub read_store-same :
      {P : World → Type 0} {E : Thrown → World → Type 0}
      → Triple P (read_store p) (λ s w. (s ≡ store w) × P w) E
  read_store-same = record { at = λ w h. (refl, h) }

  pub await-Loaded : {E : Thrown → World → Type 0} → Triple Loaded (await_settled p) (λ a. Loaded) E
  await-Loaded = record { at = λ w h. Steps-loaded (p.pause_lem w) h }

  pub write-Loaded :
      {P : World → Type 0} {E : Thrown → World → Type 0} (f : KeyStore → KeyStore)
      → ((w : World) → P w → (f (store w)).loaded_ever ≡ true)
      → Triple P (write_store p f) (λ a. Loaded) E
  write-Loaded f k = record {
    at = λ w h. subst (λ s. s.loaded_ever ≡ true) (sym (p.write_lem _ w)) (k w h);
  }

  refresh_failed-Loaded :
      (now : ℕ) (e : Thrown) → Triple Loaded (refresh_failed p now e) (λ a. Loaded) Never
  unfolding refresh_failed
  refresh_failed-Loaded now e =
      Triple-bind (λ s w. (s ≡ store w) × Loaded w) _ _ read_store-same
        (λ s.
          Triple-if s.loaded_ever _ _
            (λ _.
              write-Loaded
                (λ t. record t { next_refresh_allowed_at = now + options.negative_cache_ms })
                (λ w h. h.1))
            (λ unloaded. Triple-throw e (λ w h. absurd (ground arith))))

  refresh_or_serve_stale-answers :
      (now : ℕ) → Triple Loaded (refresh_or_serve_stale p now) (λ a. Loaded) Never
  unfolding refresh_or_serve_stale
  refresh_or_serve_stale-answers now =
      Triple-bind (λ s w. (s ≡ store w) × Loaded w) _ _ read_store-same
        (λ s.
          Triple-bind (λ a. Loaded) _ _
            (Triple-if (s.loaded_ever && ltb now s.next_refresh_allowed_at) _ _
              (λ _. Triple-pure tt (λ w h. h.1))
              (λ _.
                Triple-try_catch (λ a. Loaded) (λ e. Loaded) _ _ _
                  (after_read (stays-Loaded (refresh p) (refresh-Stepwise p)))
                  (λ a. Triple-pure a (λ w h. h)) (λ e. refresh_failed-Loaded now e)))
            (λ _. await-Loaded))
    where
      after_read :
          {A : Type 0} {s : KeyStore} {m : Method p A} {Q : A → World → Type 0}
          {E : Thrown → World → Type 0}
          → Triple Loaded m Q E
          → Triple (λ w. (s ≡ store w) × Loaded w) m Q E
      after_read k = record { at = λ w h. k.at w h.1 }

  or_resolve_miss-answers :
      (now : ℕ) (h : Text) (hit : Option ResolvedCaller)
      → Triple Loaded (or_resolve_miss p now h hit) (λ a. Loaded) Never
  unfolding resolve_miss lookup
  or_resolve_miss-answers now h (some c) = Triple-pure (some c) (λ w l. l)
  or_resolve_miss-answers now h none =
      Triple-bind (λ s w. Loaded w) _ _ (record { at = λ w l. l })
        (λ s.
          Triple-if (leb (s.last_miss_refresh_at + options.negative_cache_ms) now) _ _
            (λ _.
              Triple-bind (λ a. Loaded) _ _
                (write-Loaded (λ t. record t { last_miss_refresh_at = now }) (λ w l. l))
                (λ _.
                  Triple-bind (λ a. Loaded) _ _ (refresh_or_serve_stale-answers now)
                    (λ _. record { at = λ w l. l })))
            (λ _. Triple-pure none (λ w l. l)))

  resolve-answers :
      (platform : Platform) (presented : Text)
      → Triple Loaded (resolve p platform presented) (λ a. Loaded) Never
  unfolding resolve lookup
  resolve-answers platform presented =
      Triple-bind (λ n. Loaded) _ _
        (record { at = λ w l. subst (λ s. s.loaded_ever ≡ true) (sym (p.now_lem w)) l })
        (λ now.
          Triple-bind (λ s. Loaded) _ _ (record { at = λ w l. l })
            (λ s.
              Triple-bind (λ a. Loaded) _ _
                (Triple-if (leb (s.loaded_at + options.cache_ttl_ms) now) _ _
                  (λ _. refresh_or_serve_stale-answers now) (λ _. Triple-pure tt (λ w l. l)))
                (λ _.
                  Triple-bind (λ a. Loaded) _ _ (record { at = λ w l. l })
                    (λ hit. or_resolve_miss-answers now (platform.sha256_hex presented) hit))))

  Ends-answered :
      {A : Type 0} (P : World → Type 0) (r : Result Thrown A) (v : World)
      → Ends (λ (a : A). P) Never r v
      → (a : A) × (r ≡ ok a)
  Ends-answered P (ok a) v h = (a, refl)
  Ends-answered P (err e) v h = absurd h

  -- Once a document has been loaded, resolving a key never throws again, however often Secrets
  -- Manager fails or returns a document that is not valid.
  pub resolve_answers :
      (platform : Platform) (presented : Text) (w : World)
      → (store w).loaded_ever ≡ true
      → (r : Option ResolvedCaller) × ((resolve p platform presented w).0 ≡ ok r)
  resolve_answers platform presented w l =
      Ends-answered Loaded _ _ ((resolve-answers platform presented).at w l)
