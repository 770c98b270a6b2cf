-- ===== src/Api/KeyStore/Store.antt =====
-- api-key-store.ts: the class SecretsApiKeyStore. Secrets Manager, the clock and the event loop are
-- parameters. Where a method awaits, the calls of other requests may change the same store.
use api_proxy.Base.{
  ℕ, ◌+◌, ◌≡◌, Bool, true, false, ◌&&◌, Text, codes, Option, none, some, [], ltb, leb,
  if◌then◌else◌, Result, ok, err, Exec, pure, throw, lift, try_catch, ◌>>=◌, ◌>>◌,
}
use api_proxy.Contracts.Errors.{ErrorCode, Thrown, app_error, non_retryable_error}
use api_proxy.Contracts.Ids.{Platform}
use api_proxy.Api.KeyStore.{Index, ResolvedCaller, index_get, build_index}

pub record SecretsOptions : Type 0 where
  pub cache_ttl_ms : ℕ
  pub negative_cache_ms : ℕ

-- The private fields. `in_flight` says whether a load is under way.
pub record KeyStore : Type 0 where
  pub index : Index
  pub loaded_at : ℕ
  pub loaded_ever : Bool
  pub last_miss_refresh_at : ℕ
  pub next_refresh_allowed_at : ℕ
  pub in_flight : Bool

abbrev pub new_store : KeyStore
new_store = record {
  index = [];
  loaded_at = 0;
  loaded_ever = false;
  last_miss_refresh_at = 0;
  next_refresh_allowed_at = 0;
  in_flight = false;
}

-- The fields as `#load` leaves them.
unfoldable pub loaded : Index → ℕ → KeyStore → KeyStore
loaded index at s = record s {
  index = index;
  loaded_at = at;
  loaded_ever = true;
  next_refresh_allowed_at = 0;
}

-- A change that some request makes between two awaits. A load stores the index of a text that
-- Secrets Manager returned, at the time that the clock read next.
pub data Step (options : SecretsOptions) (Read : Text → ℕ → Type 0)
    : KeyStore → KeyStore → Type 0 where
  starts : (s : KeyStore) → Step options Read s (record s { in_flight = true })
  settles : (s : KeyStore) → Step options Read s (record s { in_flight = false })
  loads :
      (s : KeyStore) (text : Text) (now at : ℕ) (index : Index)
      → Read text now
      → build_index text now ≡ ok index
      → Step options Read s (loaded index at s)
  cools :
      (s : KeyStore) (now : ℕ)
      → s.loaded_ever ≡ true
      → Step options Read s (record s { next_refresh_allowed_at = now + options.negative_cache_ms })
  misses : (s : KeyStore) (now : ℕ) → Step options Read s (record s { last_miss_refresh_at = now })

pub data Steps (options : SecretsOptions) (Read : Text → ℕ → Type 0) (s : KeyStore)
    : KeyStore → Type 0 where
  here : Steps options Read s s
  next : {t u : KeyStore} → Steps options Read s t → Step options Read t u → Steps options Read s u

-- The process around a store. `now` is at once; other requests go on while this one awaits the
-- secret, a load that another request began, or a promise that is already settled. `Read text now`
-- says that Secrets Manager has returned `text` and that the clock has read `now` right after.
-- It is any relation that holds of these pairs.
pub record Process (options : SecretsOptions) : Type 1 where
  pub World : Type 0
  pub store : World → KeyStore
  pub write : KeyStore → World → World
  pub now : World → ℕ × World
  pub get_secret : World → Result Thrown (Option Text) × World
  pub join : World → Result Thrown (Unit {0}) × World
  pub pause : World → World
  pub Read : Text → ℕ → Type 0
  pub read_lem :
      (w : World) (text : Text)
      → (get_secret w).0 ≡ ok (some text)
      → Read text (now (get_secret w).1).0
  pub write_lem : (s : KeyStore) (w : World) → store (write s w) ≡ s
  pub now_lem : (w : World) → store (now w).1 ≡ store w
  pub get_secret_lem : (w : World) → Steps options Read (store w) (store (get_secret w).1)
  pub join_lem : (w : World) → Steps options Read (store w) (store (join w).1)
  -- The promise of a load is fulfilled after the load has stored its index.
  pub join_loaded : (w : World) → (join w).0 ≡ ok tt → (store (join w).1).loaded_ever ≡ true
  pub pause_lem : (w : World) → Steps options Read (store w) (store (pause w))

module _ {options : SecretsOptions} (p : Process options) where
  open p use {World}

  abbrev pub Method : Type 0 → Type 0
  Method A = Exec World Thrown A

  abbrev pub read_now : Method ℕ
  read_now w = let (n, v) = p.now w in (ok n, v)

  abbrev pub read_store : Method KeyStore
  read_store w = (ok (p.store w), w)

  abbrev pub write_store : (KeyStore → KeyStore) → Method (Unit {0})
  write_store f w = (ok tt, p.write (f (p.store w)) w)

  abbrev pub await_settled : Method (Unit {0})
  await_settled w = (ok tt, p.pause w)

  no_string_value : Thrown
  no_string_value =
      app_error
        (non_retryable_error ErrorCode.internal_error (codes "api key secret has no string value"))

  unfoldable pub secret_string : Option Text → Result Thrown Text
  unfolding no_string_value
  secret_string none = err no_string_value
  secret_string (some text) = ok text

  unfoldable pub load : Method (Unit {0})
  unfolding secret_string loaded lift
  load = do
    response ← p.get_secret
    text ← lift (secret_string response)
    now ← read_now
    rebuilt ← lift (build_index text now)
    at ← read_now
    write_store (loaded rebuilt at)

  abbrev pub start_load : Method (Unit {0})
  start_load = write_store (λ s. record s { in_flight = true })

  abbrev pub settle : Method (Unit {0})
  settle = write_store (λ s. record s { in_flight = false })

  -- `this.#load().finally(…)`, and the wait for it.
  unfoldable pub own_load : Method (Unit {0})
  unfolding load pure throw
  own_load = do
    start_load
    try_catch load (λ _. settle >> await_settled) (λ e. settle >> (await_settled >> throw e))

  unfoldable pub refresh : Method (Unit {0})
  unfolding own_load
  refresh = do s ← read_store; if s.in_flight then p.join else own_load

  -- The `catch` of #refreshOrServeStale.
  unfoldable pub refresh_failed : ℕ → Thrown → Method (Unit {0})
  unfolding throw
  refresh_failed now e = do
    s ← read_store
    if s.loaded_ever
        then write_store
            (λ t. record t { next_refresh_allowed_at = now + options.negative_cache_ms })
        else throw e

  unfoldable pub refresh_or_serve_stale : ℕ → Method (Unit {0})
  unfolding refresh refresh_failed pure
  refresh_or_serve_stale now = do
    s ← read_store
    if s.loaded_ever && ltb now s.next_refresh_allowed_at
        then pure tt
        else try_catch refresh pure (refresh_failed now)
    await_settled

  unfoldable pub lookup : Text → Method (Option ResolvedCaller)
  unfolding index_get
  lookup digest w = (ok (index_get digest (p.store w).index), w)

  -- The part after the first lookup: it missed.
  unfoldable pub resolve_miss : ℕ → Text → Method (Option ResolvedCaller)
  unfolding refresh_or_serve_stale lookup pure
  resolve_miss now digest = do
    s ← read_store
    if leb (s.last_miss_refresh_at + options.negative_cache_ms) now
        then (do
          write_store (λ t. record t { last_miss_refresh_at = now })
          refresh_or_serve_stale now
          lookup digest)
        else pure none

  abbrev pub or_resolve_miss : ℕ → Text → Option ResolvedCaller → Method (Option ResolvedCaller)
  or_resolve_miss now digest (some hit) = pure (some hit)
  or_resolve_miss now digest none = resolve_miss now digest

  unfoldable pub resolve : Platform → Text → Method (Option ResolvedCaller)
  unfolding refresh_or_serve_stale lookup resolve_miss pure
  resolve platform presented = do
    now ← read_now
    s ← read_store
    if leb (s.loaded_at + options.cache_ttl_ms) now then refresh_or_serve_stale now else pure tt
    hit ← lookup (platform.sha256_hex presented)
    or_resolve_miss now (platform.sha256_hex presented) hit
