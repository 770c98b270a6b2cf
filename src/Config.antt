-- ===== src/Config.antt =====
-- packages/config/src/config.ts: the configuration and the variables that it is read from.
pub mod Fields
pub mod Checks
pub mod Load
pub mod Ladder
pub mod Roles
pub mod Accessors
use api_proxy.Base.{ℕ, Text, Option}

pub data Environment : Type 0 where
  local dev staging production : Environment

pub data Role : Type 0 where
  api worker publisher reconciler : Role

pub data LogLevel : Type 0 where
  fatal error warn info debug trace : LogLevel

-- The environment variables, in the order of `configSchema`.
pub data Variable : Type 0 where
  app_env service_name service_version aws_region log_level : Variable
  port host public_base_url : Variable
  sync_wait_timeout_ms http_request_timeout_ms alb_idle_timeout_ms : Variable
  http_keep_alive_timeout_ms http_headers_timeout_ms client_recommended_timeout_ms : Variable
  shutdown_drain_ms shutdown_readiness_delay_ms : Variable
  poll_initial_delay_ms poll_max_delay_ms poll_backoff_factor poll_jitter_ratio : Variable
  business_deadline_ms max_request_payload_bytes max_result_bytes : Variable
  workflow_ttl_days outbox_ttl_days : Variable
  workflow_table_name dynamodb_endpoint : Variable
  start_queue_url step_queue_url sqs_endpoint : Variable
  api_keys_secret_id auth_cache_ttl_ms auth_negative_cache_ms api_keys_inline : Variable
  provider_base_url provider_timeout_ms provider_connect_timeout_ms : Variable
  outbox_stale_after_ms reconcile_page_size : Variable

-- `process.env`: a text, or `undefined`.
abbrev pub Env : Type 0
Env = Variable → Option Text

-- What `z.coerce.number()` makes of a text: a natural number, a positive number `n / d` that is
-- none, or anything else (negative, infinite, NaN).
pub data Number : Type 0 where
  whole : ℕ → Number
  fraction : (n d : ℕ) → Number
  outside : Number

pub record Http : Type 0 where
  pub port : ℕ
  pub host : Text
  pub public_base_url : Text
  pub sync_wait_timeout_ms : ℕ
  pub request_timeout_ms : ℕ
  pub alb_idle_timeout_ms : ℕ
  pub keep_alive_timeout_ms : ℕ
  pub headers_timeout_ms : ℕ
  pub client_recommended_timeout_ms : ℕ
  pub shutdown_drain_ms : ℕ
  pub shutdown_readiness_delay_ms : ℕ

pub record Polling : Type 0 where
  pub initial_delay_ms : ℕ
  pub max_delay_ms : ℕ
  pub backoff_factor : Number
  pub jitter_ratio : Number

pub record Business : Type 0 where
  pub deadline_ms : ℕ
  pub max_request_payload_bytes : ℕ
  pub max_result_bytes : ℕ
  pub workflow_ttl_days : ℕ
  pub outbox_ttl_days : ℕ

pub record Persistence : Type 0 where
  pub table_name : Option Text
  pub endpoint : Option Text

pub record Messaging : Type 0 where
  pub start_queue_url : Option Text
  pub step_queue_url : Option Text
  pub endpoint : Option Text

pub record Auth : Type 0 where
  pub secret_id : Option Text
  pub cache_ttl_ms : ℕ
  pub negative_cache_ms : ℕ
  pub inline_keys : Option Text

pub record Provider : Type 0 where
  pub base_url : Option Text
  pub timeout_ms : ℕ
  pub connect_timeout_ms : ℕ

pub record Reconciler : Type 0 where
  pub outbox_stale_after_ms : ℕ
  pub page_size : ℕ

pub record Config : Type 0 where
  pub env : Environment
  pub service_name : Text
  pub service_version : Text
  pub region : Text
  pub log_level : LogLevel
  pub http : Http
  pub polling : Polling
  pub business : Business
  pub persistence : Persistence
  pub messaging : Messaging
  pub auth : Auth
  pub provider : Provider
  pub reconciler : Reconciler
