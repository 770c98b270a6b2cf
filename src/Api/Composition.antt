-- ===== src/Api/Composition.antt =====
-- apps/api/src/composition.ts: what the API is built from. Loggers, metrics and clients are left out.
use api_proxy.Base.{
  ℕ, ◌≡◌, refl, sym, subst, ◌⊎◌, inl, inr, Text, codes, Option, none, some, Result, ok, err,
}
use api_proxy.Config.{Environment, Role, Env, Number, Config}
use api_proxy.Config.Ladder.{IsDeployable}
use api_proxy.Config.Load.{ConfigurationError, load_config}
use api_proxy.Config.Roles.{IsEquipped, load_config_iff}
use api_proxy.Repository.{RepositoryOptions}
use api_proxy.Contracts.Errors.{Thrown, other_error}
use api_proxy.Api.KeyStore.{Index, inline_store}
use api_proxy.Api.KeyStore.Store.{SecretsOptions}
use api_proxy.Api.App.{Settings}

-- Which store is built: `InlineApiKeyStore` with the index that its constructor builds, or
-- `SecretsApiKeyStore` with the id of its secret.
pub data KeySource : Type 0 where
  inline_keys : Index → KeySource
  secret : Text → SecretsOptions → KeySource

pub record Wiring : Type 0 where
  pub table_name : Text
  pub repository : RepositoryOptions
  pub key_source : KeySource
  pub settings : Settings

abbrev pub secrets_options : Config → SecretsOptions
secrets_options c = record {
  cache_ttl_ms = c.auth.cache_ttl_ms;
  negative_cache_ms = c.auth.negative_cache_ms;
}

-- `new Error(message)`
abbrev plain_error : Text → Thrown
plain_error message = other_error (codes "Error") message

abbrev inline_source : Result Thrown Index → Result Thrown KeySource
inline_source (ok index) = ok (inline_keys index)
inline_source (err e) = err e

-- `now` is what the clock reads.
unfoldable pub choose_key_source : Config → ℕ → Result Thrown KeySource
unfolding inline_store
choose_key_source c now = elim c.auth.inline_keys [
  | some document ↦ inline_source (inline_store document now)
  | none ↦ elim c.auth.secret_id [
    | some id ↦ ok (secret id (secrets_options c))
    | none ↦ err (plain_error (codes "API_KEYS_SECRET_ID or API_KEYS_INLINE is required"))
  ]
]

unfoldable pub wire : Config → Text → KeySource → Wiring
wire c table_name source = record {
  table_name = table_name;
  repository = record {
    workflow_ttl_days = c.business.workflow_ttl_days;
    outbox_ttl_days = c.business.outbox_ttl_days;
  };
  key_source = source;
  settings = record {
    public_base_url = c.http.public_base_url;
    sync_wait_timeout_ms = c.http.sync_wait_timeout_ms;
    deadline_ms = c.business.deadline_ms;
    max_request_payload_bytes = c.business.max_request_payload_bytes;
  };
}

abbrev wired : Config → Text → Result Thrown KeySource → Result Thrown Wiring
wired c table_name (ok source) = ok (wire c table_name source)
wired c table_name (err e) = err e

unfoldable pub build_dependencies : Config → ℕ → Result Thrown Wiring
unfolding choose_key_source wire
build_dependencies c now = elim c.persistence.table_name [
  | none ↦ err (plain_error (codes "WORKFLOW_TABLE_NAME is required"))
  | some table_name ↦ wired c table_name (choose_key_source c now)
]

-- The two ways in which a start of the API fails.
pub data StartFailure : Type 0 where
  not_configured : ConfigurationError → StartFailure
  not_built : Thrown → StartFailure

abbrev started : Result Thrown Wiring → Result StartFailure Wiring
started (ok w) = ok w
started (err e) = err (not_built e)

abbrev configured : ℕ → Result ConfigurationError Config → Result StartFailure Wiring
configured now (err e) = err (not_configured e)
configured now (ok c) = started (build_dependencies c now)

unfoldable pub build_api_from_env : (Text → Number) → Env → ℕ → Result StartFailure Wiring
unfolding build_dependencies
build_api_from_env coerce_number env now = configured now (load_config coerce_number Role.api env)

-- Outside `local` keys come from the secret, and the given options go with it.
abbrev pub IsWiredFor : Config → ℕ → KeySource → Type 0
IsWiredFor c now (secret id o) = (c.auth.secret_id ≡ some id) × (o ≡ secrets_options c)
IsWiredFor c now (inline_keys index) =
    (c.env ≡ Environment.local)
    × ((document : Text) × (c.auth.inline_keys ≡ some document)
        × (inline_store document now ≡ ok index))

-- The API starts, wired for its configuration.
abbrev pub Starts : Config → ℕ → Result StartFailure Wiring → Type 0
Starts c now r =
    (table_name : Text) × (source : KeySource) × (r ≡ ok (wire c table_name source))
    × (c.persistence.table_name ≡ some table_name)
    × IsWiredFor c now source

-- The keys given inline are refused, with their error, in `local`.
abbrev pub RefusesInline : Config → ℕ → Result StartFailure Wiring → Type 0
RefusesInline c now r =
    (document : Text) × (e : Thrown) × (c.env ≡ Environment.local)
    × (c.auth.inline_keys ≡ some document)
    × (inline_store document now ≡ err e)
    × (r ≡ err (not_built e))

deployable_inline :
    (c : Config) (document : Text) (e : Environment)
    → c.env ≡ e
    → c.auth.inline_keys ≡ some document
    → IsDeployable e c
    → c.env ≡ Environment.local
deployable_inline c document Environment.local e k d = e
deployable_inline c document Environment.dev e k d = cc
deployable_inline c document Environment.staging e k d = cc
deployable_inline c document Environment.production e k d = cc

module _ (c : Config) (now : ℕ) (table_name : Text)
    (named : c.persistence.table_name ≡ some table_name) where
  built :
      (r : Result Thrown KeySource)
      → choose_key_source c now ≡ r
      → started (build_dependencies c now) ≡ started (wired c table_name r)
  unfolding build_dependencies
  built r e = rw (named, e) refl

  inline_chosen :
      (document : Text) (r : Result Thrown Index)
      → c.auth.inline_keys ≡ some document
      → inline_store document now ≡ r
      → choose_key_source c now ≡ inline_source r
  unfolding choose_key_source
  inline_chosen document r e k = rw (e, k) refl

  inline_outcome :
      (document : Text) (r : Result Thrown Index)
      → c.auth.inline_keys ≡ some document
      → c.env ≡ Environment.local
      → inline_store document now ≡ r
      → Starts c now (started (build_dependencies c now))
        ⊎ RefusesInline c now (started (build_dependencies c now))
  inline_outcome document (ok index) e here k = inl (
    table_name,
    inline_keys index,
    built _ (inline_chosen document (ok index) e k),
    named,
    (here, (document, e, k)),
  )
  inline_outcome document (err x) e here k =
      inr (document, x, here, e, k, built _ (inline_chosen document (err x) e k))

  secret_chosen :
      (id : Text)
      → c.auth.inline_keys ≡ none
      → c.auth.secret_id ≡ some id
      → choose_key_source c now ≡ ok (secret id (secrets_options c))
  unfolding choose_key_source
  secret_chosen id e k = rw (e, k) refl

  outcome :
      (o p : Option Text)
      → c.auth.inline_keys ≡ o
      → c.auth.secret_id ≡ p
      → IsDeployable c.env c
      → IsEquipped Role.api c
      → Starts c now (started (build_dependencies c now))
        ⊎ RefusesInline c now (started (build_dependencies c now))
  outcome (some document) p e k d q =
      inline_outcome document _ e (deployable_inline c document c.env refl e d) refl
  outcome none (some id) e k d q =
      inl (
        table_name,
        secret id (secrets_options c),
        built _ (secret_chosen id e k),
        named,
        (k, refl),
      )
  outcome none none e k d q = elim q.1 [ inl (t, f) ↦ cc | inr (t, f) ↦ cc ]

-- A configuration that `loadConfig` accepts for the API is refused when the API is built in one case
-- only: keys are given inline, which is so in `local` only, and their document is invalid. Else the
-- store that is built has the index of the inline document, or reads the secret, with the cache's
-- times of the configuration; outside `local` it is always the secret.
pub build_dependencies_wired :
    (coerce_number : Text → Number) (env : Env) (now : ℕ) (c : Config)
    → load_config coerce_number Role.api env ≡ ok c
    → Starts c now (build_api_from_env coerce_number env now)
      ⊎ RefusesInline c now (build_api_from_env coerce_number env now)
unfolding build_api_from_env
build_dependencies_wired coerce_number env now c e =
    let (_, _, deployable, equipped) = (load_config_iff coerce_number env Role.api c).0 e in
    let (table_name, named) = equipped.0 in
    subst (λ r. Starts c now (configured now r) ⊎ RefusesInline c now (configured now r)) (sym e)
      (outcome c now table_name named _ _ refl refl deployable equipped)
