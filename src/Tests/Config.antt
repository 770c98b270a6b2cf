-- ===== src/Tests/Config.antt =====
-- The configuration of an API in production, and how the API is built from it.
use api_proxy.Base.{◌⊎◌, ◌≡◌, ◌↔◌, refl, Text, codes, none, some, ok}
use api_proxy.Contracts.Json.{Json}
use api_proxy.Contracts.Json.Numeral.{literal}
use api_proxy.Config.{
  Environment, Role, LogLevel, Variable, Env, Number, whole, fraction, outside, Config,
}
use api_proxy.Config.Fields.{parse_env}
use api_proxy.Config.Load.{load_config}
use api_proxy.Config.Ladder.{IsLadder, IsDeployable}
use api_proxy.Config.Roles.{IsEquipped, load_config_iff}
use api_proxy.Config.Accessors.{AccessorsSucceed, accessors_succeed}
use api_proxy.Api.Composition.{Starts, RefusesInline, build_api_from_env, build_dependencies_wired}

read_number : Text → Number
unfolding literal
read_number t = elim (literal t) [ some (Json.number n) ↦ whole n | _ ↦ outside ]

abbrev production : Env
production Variable.app_env = some (codes "production")
production Variable.workflow_table_name = some (codes " workflows ")
production Variable.api_keys_secret_id = some (codes "api-keys")
production Variable.public_base_url = some (codes "https://api.example.com//")
production Variable.sync_wait_timeout_ms = some (codes "15000")
production _ = none

abbrev config : Config
config = record {
  env = Environment.production;
  service_name = codes "workflow-service";
  service_version = codes "0.0.0-dev";
  region = codes "us-east-1";
  log_level = LogLevel.info;
  http = record {
    port = 8080;
    host = codes "0.0.0.0";
    public_base_url = codes "https://api.example.com";
    sync_wait_timeout_ms = 15_000;
    request_timeout_ms = 22_000;
    alb_idle_timeout_ms = 30_000;
    keep_alive_timeout_ms = 35_000;
    headers_timeout_ms = 40_000;
    client_recommended_timeout_ms = 35_000;
    shutdown_drain_ms = 25_000;
    shutdown_readiness_delay_ms = 5_000;
  };
  polling = record {
    initial_delay_ms = 50;
    max_delay_ms = 1_000;
    backoff_factor = fraction 3_602_879_701_896_397 2_251_799_813_685_248;
    jitter_ratio = fraction 3_602_879_701_896_397 18_014_398_509_481_984;
  };
  business = record {
    deadline_ms = 300_000;
    max_request_payload_bytes = 122_880;
    max_result_bytes = 122_880;
    workflow_ttl_days = 90;
    outbox_ttl_days = 7;
  };
  persistence = record { table_name = some (codes "workflows"); endpoint = none };
  messaging = record { start_queue_url = none; step_queue_url = none; endpoint = none };
  auth = record {
    secret_id = some (codes "api-keys");
    cache_ttl_ms = 60_000;
    negative_cache_ms = 5_000;
    inline_keys = none;
  };
  provider = record { base_url = none; timeout_ms = 5_000; connect_timeout_ms = 2_000 };
  reconciler = record { outbox_stale_after_ms = 60_000; page_size = 50 };
}

load_config_runs : load_config read_number Role.api production ≡ ok config
unfolding load_config read_number
load_config_runs = refl

load_config_iff_example : (load_config read_number Role.api production ≡ ok config) ↔ (
    (parse_env read_number production ≡ ok config)
    × IsLadder config
    × IsDeployable Environment.production config
    × IsEquipped Role.api config)
load_config_iff_example = load_config_iff read_number production Role.api config

accessors_succeed_example : AccessorsSucceed Role.api config
accessors_succeed_example =
    accessors_succeed read_number Role.api production config load_config_runs

build_dependencies_wired_example :
    Starts config 1000 (build_api_from_env read_number production 1000)
    ⊎ RefusesInline config 1000 (build_api_from_env read_number production 1000)
build_dependencies_wired_example =
    build_dependencies_wired read_number production 1000 config load_config_runs
