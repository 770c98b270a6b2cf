-- ===== src/Config/Fields.antt =====
-- config.ts: the schema of each variable, with its default, and the transformation into `Config`.
use api_proxy.Base.{
  ℕ, ◌*◌, ◌&&◌, Text, codes, text_eq, Option, none, some, List, [], ◌∷◌, ◌++◌, leb, ◌==◌,
  if◌then◌else◌, Result, ok, err,
}
use api_proxy.Base.Trim.{drop_end, trim}
use api_proxy.Config.{
  Environment, LogLevel, Variable, Env, Number, whole, fraction, outside, Http, Polling, Business,
  Persistence, Messaging, Auth, Provider, Reconciler, Config,
}

-- zod parses every field of an object and lists the fields that it refuses.
abbrev pub Parsed : Type 0 → Type 0
Parsed A = Result (List Variable) A

infixl 6 ◌⊛◌
abbrev pub ◌⊛◌ : {A B : Type 0} → Parsed (A → B) → Parsed A → Parsed B
ok f ⊛ ok a = ok (f a)
ok f ⊛ err vs = err vs
err us ⊛ ok a = err us
err us ⊛ err vs = err (us ++ vs)

-- `z.string().trim().min(1)`
non_empty : Variable → Text → Parsed Text
unfolding trim
non_empty v t = elim (trim t) [ [] ↦ err (v ∷ []) | c ∷ s ↦ ok (c ∷ s) ]

text_or : Env → Variable → Text → Parsed Text
unfolding non_empty
text_or env v d = elim (env v) [ none ↦ ok d | some t ↦ non_empty v t ]

optional_text : Env → Variable → Parsed (Option Text)
unfolding non_empty
optional_text env v = elim (env v) [ none ↦ ok none | some t ↦ ok some ⊛ non_empty v t ]

environment_names : List (Text × Environment)
environment_names =
    (codes "local", Environment.local)
    ∷ (codes "dev", Environment.dev)
    ∷ (codes "staging", Environment.staging)
    ∷ (codes "production", Environment.production)
    ∷ []

log_level_names : List (Text × LogLevel)
log_level_names =
    (codes "fatal", LogLevel.fatal)
    ∷ (codes "error", LogLevel.error)
    ∷ (codes "warn", LogLevel.warn)
    ∷ (codes "info", LogLevel.info)
    ∷ (codes "debug", LogLevel.debug)
    ∷ (codes "trace", LogLevel.trace)
    ∷ []

-- `z.enum(names)`
enum : {A : Type 0} → Variable → List (Text × A) → Text → Parsed A
unfolding text_eq
enum v [] t = err (v ∷ [])
enum v ((n, a) ∷ names) t = if text_eq n t then ok a else enum v names t

enum_or : {A : Type 0} → Env → Variable → List (Text × A) → A → Parsed A
unfolding enum
enum_or env v names d = elim (env v) [ none ↦ ok d | some t ↦ enum v names t ]

-- `.replace(/\/+$/, "")`
unfoldable pub without_trailing_slashes : Text → Text
unfolding drop_end
without_trailing_slashes t = drop_end (λ c. c == b'/') t

-- `.int().min(lo).max(hi)`
whole_within : Variable → ℕ → ℕ → Number → Parsed ℕ
whole_within v lo hi (whole n) = if leb lo n && leb n hi then ok n else err (v ∷ [])
whole_within v lo hi _ = err (v ∷ [])

-- `.min(lo).max(hi)`
number_within : Variable → ℕ → ℕ → Number → Parsed Number
number_within v lo hi (whole n) = if leb lo n && leb n hi then ok (whole n) else err (v ∷ [])
number_within v lo hi (fraction n d) =
    if leb (lo * d) n && leb n (hi * d) then ok (fraction n d) else err (v ∷ [])
number_within v lo hi outside = err (v ∷ [])

module _ (coerce_number : Text → Number) (env : Env) where
  number_or : {A : Type 0} → Variable → (Number → Parsed A) → A → Parsed A
  number_or v schema d = elim (env v) [ none ↦ ok d | some t ↦ schema (coerce_number t) ]

  whole_or : Variable → ℕ → ℕ → ℕ → Parsed ℕ
  unfolding number_or whole_within
  whole_or v lo hi d = number_or v (whole_within v lo hi) d

  millis : Variable → ℕ → Parsed ℕ
  unfolding whole_or
  millis v d = whole_or v 1 3_600_000 d

  bytes : Variable → ℕ → Parsed ℕ
  unfolding whole_or
  bytes v d = whole_or v 1 400_000 d

  unfoldable pub http_of : Parsed Http
  unfolding millis whole_or text_or without_trailing_slashes
  http_of =
      ok (λ port host url sync request alb keep headers client drain delay. record {
        port = port;
        host = host;
        public_base_url = without_trailing_slashes url;
        sync_wait_timeout_ms = sync;
        request_timeout_ms = request;
        alb_idle_timeout_ms = alb;
        keep_alive_timeout_ms = keep;
        headers_timeout_ms = headers;
        client_recommended_timeout_ms = client;
        shutdown_drain_ms = drain;
        shutdown_readiness_delay_ms = delay;
      })
      ⊛ whole_or Variable.port 1 65_535 8080
      ⊛ text_or env Variable.host (codes "0.0.0.0")
      ⊛ text_or env Variable.public_base_url (codes "http://localhost:8080")
      ⊛ millis Variable.sync_wait_timeout_ms 20_000
      ⊛ millis Variable.http_request_timeout_ms 22_000
      ⊛ millis Variable.alb_idle_timeout_ms 30_000
      ⊛ millis Variable.http_keep_alive_timeout_ms 35_000
      ⊛ millis Variable.http_headers_timeout_ms 40_000
      ⊛ millis Variable.client_recommended_timeout_ms 35_000
      ⊛ millis Variable.shutdown_drain_ms 25_000
      ⊛ millis Variable.shutdown_readiness_delay_ms 5_000

  -- The defaults 1.6 and 0.2 as the doubles that they are.
  unfoldable pub polling_of : Parsed Polling
  unfolding millis number_or number_within
  polling_of =
      ok (λ initial most factor ratio. record {
        initial_delay_ms = initial;
        max_delay_ms = most;
        backoff_factor = factor;
        jitter_ratio = ratio;
      })
      ⊛ millis Variable.poll_initial_delay_ms 50
      ⊛ millis Variable.poll_max_delay_ms 1_000
      ⊛ number_or Variable.poll_backoff_factor (number_within Variable.poll_backoff_factor 1 10)
          (fraction 3_602_879_701_896_397 2_251_799_813_685_248)
      ⊛ number_or Variable.poll_jitter_ratio (number_within Variable.poll_jitter_ratio 0 1)
          (fraction 3_602_879_701_896_397 18_014_398_509_481_984)

  unfoldable pub business_of : Parsed Business
  unfolding millis bytes whole_or
  business_of =
      ok (λ deadline payload result ttl outbox_ttl. record {
        deadline_ms = deadline;
        max_request_payload_bytes = payload;
        max_result_bytes = result;
        workflow_ttl_days = ttl;
        outbox_ttl_days = outbox_ttl;
      })
      ⊛ millis Variable.business_deadline_ms 300_000
      ⊛ bytes Variable.max_request_payload_bytes (120 * 1024)
      ⊛ bytes Variable.max_result_bytes (120 * 1024)
      ⊛ whole_or Variable.workflow_ttl_days 1 3_650 90
      ⊛ whole_or Variable.outbox_ttl_days 1 365 7

  unfoldable pub persistence_of : Parsed Persistence
  unfolding optional_text
  persistence_of =
      ok (λ table_name endpoint. record { table_name = table_name; endpoint = endpoint })
      ⊛ optional_text env Variable.workflow_table_name
      ⊛ optional_text env Variable.dynamodb_endpoint

  unfoldable pub messaging_of : Parsed Messaging
  unfolding optional_text
  messaging_of =
      ok (λ start step endpoint. record {
        start_queue_url = start;
        step_queue_url = step;
        endpoint = endpoint;
      })
      ⊛ optional_text env Variable.start_queue_url
      ⊛ optional_text env Variable.step_queue_url
      ⊛ optional_text env Variable.sqs_endpoint

  -- The inline keys are a text as it stands: `z.string().optional()`.
  unfoldable pub auth_of : Parsed Auth
  unfolding optional_text millis
  auth_of =
      ok (λ secret_id ttl negative. record {
        secret_id = secret_id;
        cache_ttl_ms = ttl;
        negative_cache_ms = negative;
        inline_keys = env Variable.api_keys_inline;
      })
      ⊛ optional_text env Variable.api_keys_secret_id
      ⊛ millis Variable.auth_cache_ttl_ms 60_000
      ⊛ millis Variable.auth_negative_cache_ms 5_000

  unfoldable pub provider_of : Parsed Provider
  unfolding optional_text millis
  provider_of =
      ok (λ url timeout connect. record {
        base_url = url;
        timeout_ms = timeout;
        connect_timeout_ms = connect;
      })
      ⊛ optional_text env Variable.provider_base_url
      ⊛ millis Variable.provider_timeout_ms 5_000
      ⊛ millis Variable.provider_connect_timeout_ms 2_000

  unfoldable pub reconciler_of : Parsed Reconciler
  unfolding millis whole_or
  reconciler_of =
      ok (λ stale page. record { outbox_stale_after_ms = stale; page_size = page })
      ⊛ millis Variable.outbox_stale_after_ms 60_000
      ⊛ whole_or Variable.reconcile_page_size 1 1_000 50

  -- The object and its `transform`.
  unfoldable pub parse_env : Parsed Config
  unfolding http_of polling_of business_of persistence_of messaging_of auth_of provider_of
      reconciler_of text_or enum_or environment_names log_level_names
  parse_env =
      ok
        (λ environment name version region level http polling business store queues auth provider
            reconciler.
          record {
            env = environment;
            service_name = name;
            service_version = version;
            region = region;
            log_level = level;
            http = http;
            polling = polling;
            business = business;
            persistence = store;
            messaging = queues;
            auth = auth;
            provider = provider;
            reconciler = reconciler;
          })
      ⊛ enum_or env Variable.app_env environment_names Environment.local
      ⊛ text_or env Variable.service_name (codes "workflow-service")
      ⊛ text_or env Variable.service_version (codes "0.0.0-dev")
      ⊛ text_or env Variable.aws_region (codes "us-east-1")
      ⊛ enum_or env Variable.log_level log_level_names LogLevel.info
      ⊛ http_of
      ⊛ polling_of
      ⊛ business_of
      ⊛ persistence_of
      ⊛ messaging_of
      ⊛ auth_of
      ⊛ provider_of
      ⊛ reconciler_of
