-- ===== src/Config/Load.antt =====
-- config.ts: what each deployable must have, `loadConfig`, and the narrowed accessors.
use api_proxy.Base.{
  Bool, not, ◌&&◌, Text, Option, none, some, is_some, List, [], ◌∷◌, if◌then◌else◌, Result, ok, err,
}
use api_proxy.Contracts.Messages.{OutboxDestination}
use api_proxy.Config.{Role, Variable, Env, Number, Config}
use api_proxy.Config.Fields.{parse_env}
use api_proxy.Config.Checks.{refinement_issues}

pub data Requirement : Type 0 where
  workflow_table_name start_queue_url step_queue_url provider_base_url : Requirement
  api_keys_secret_id_or_inline : Requirement

unfoldable pub required_by_role : Role → List Requirement
required_by_role Role.api =
    Requirement.workflow_table_name ∷ Requirement.api_keys_secret_id_or_inline ∷ []
required_by_role Role.worker = Requirement.workflow_table_name ∷ Requirement.provider_base_url ∷ []
required_by_role Role.publisher =
    Requirement.workflow_table_name ∷ Requirement.start_queue_url ∷ Requirement.step_queue_url ∷ []
required_by_role Role.reconciler =
    Requirement.workflow_table_name ∷ Requirement.start_queue_url ∷ Requirement.step_queue_url ∷ []

-- The constructors say what the issues of a ConfigurationError are about.
pub data ConfigurationError : Type 0 where
  invalid : List Variable → ConfigurationError
  missing_for : Role → List Requirement → ConfigurationError
  missing : Requirement → ConfigurationError

unfoldable pub is_missing : Config → Requirement → Bool
is_missing c Requirement.workflow_table_name = not (is_some c.persistence.table_name)
is_missing c Requirement.start_queue_url = not (is_some c.messaging.start_queue_url)
is_missing c Requirement.step_queue_url = not (is_some c.messaging.step_queue_url)
is_missing c Requirement.provider_base_url = not (is_some c.provider.base_url)
is_missing c Requirement.api_keys_secret_id_or_inline =
    not (is_some c.auth.secret_id) && not (is_some c.auth.inline_keys)

unfoldable pub missing_among : Config → List Requirement → List Requirement
missing_among c [] = []
missing_among c (r ∷ rs) =
    let rest = missing_among c rs in if is_missing c r then r ∷ rest else rest

unfoldable pub missing_for_role : Role → Config → List Requirement
unfolding missing_among required_by_role is_missing
missing_for_role role c = missing_among c (required_by_role role)

-- `configSchema.safeParse(env)`: the refinement runs on an object that was parsed.
unfoldable pub refine : Config → Result (List Variable) Config
unfolding refinement_issues
refine c = elim (refinement_issues c) [ [] ↦ ok c | v ∷ vs ↦ err (v ∷ vs) ]

unfoldable pub safe_parse : (Text → Number) → Env → Result (List Variable) Config
unfolding refine parse_env
safe_parse coerce_number env = elim (parse_env coerce_number env) [
  | ok c ↦ refine c
  | err vs ↦ err vs
]

-- The second half of `loadConfig`.
unfoldable pub for_role : Role → Config → Result ConfigurationError Config
unfolding missing_for_role
for_role role c = elim (missing_for_role role c) [
  | [] ↦ ok c
  | r ∷ rs ↦ err (missing_for role (r ∷ rs))
]

unfoldable pub load_config : (Text → Number) → Role → Env → Result ConfigurationError Config
unfolding for_role safe_parse
load_config coerce_number role env = elim (safe_parse coerce_number env) [
  | ok c ↦ for_role role c
  | err vs ↦ err (invalid vs)
]

abbrev required_text : Option Text → Requirement → Result ConfigurationError Text
required_text none r = err (missing r)
required_text (some t) r = ok t

unfoldable pub require_table_name : Config → Result ConfigurationError Text
require_table_name c = required_text c.persistence.table_name Requirement.workflow_table_name

unfoldable pub require_queue_url : Config → OutboxDestination → Result ConfigurationError Text
require_queue_url c OutboxDestination.start_queue =
    required_text c.messaging.start_queue_url Requirement.start_queue_url
require_queue_url c OutboxDestination.step_queue =
    required_text c.messaging.step_queue_url Requirement.step_queue_url

unfoldable pub require_provider_base_url : Config → Result ConfigurationError Text
require_provider_base_url c = required_text c.provider.base_url Requirement.provider_base_url
