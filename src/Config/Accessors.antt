-- ===== src/Config/Accessors.antt =====
-- The narrowed accessors of config.ts after `loadConfig`.
use api_proxy.Base.{◌≡◌, refl, Text, some, Result, ok}
use api_proxy.Contracts.Messages.{OutboxDestination}
use api_proxy.Config.{Role, Env, Number, Config}
use api_proxy.Config.Load.{
  ConfigurationError, load_config, require_table_name, require_queue_url, require_provider_base_url,
}
use api_proxy.Config.Roles.{IsEquipped, load_config_iff}

abbrev Succeeds : Result ConfigurationError Text → Type 0
Succeeds r = (t : Text) × (r ≡ ok t)

-- Which accessors the tasks of a role call.
abbrev pub AccessorsSucceed : Role → Config → Type 0
AccessorsSucceed Role.api c = Succeeds (require_table_name c)
AccessorsSucceed Role.worker c =
    Succeeds (require_table_name c) × Succeeds (require_provider_base_url c)
AccessorsSucceed Role.publisher c =
    Succeeds (require_table_name c) × ((d : OutboxDestination) → Succeeds (require_queue_url c d))
AccessorsSucceed Role.reconciler c =
    Succeeds (require_table_name c) × ((d : OutboxDestination) → Succeeds (require_queue_url c d))

table_name_given :
    (c : Config) (t : Text) → c.persistence.table_name ≡ some t → Succeeds (require_table_name c)
unfolding require_table_name
table_name_given c t e = (t, rw e refl)

provider_given :
    (c : Config) (t : Text) → c.provider.base_url ≡ some t → Succeeds (require_provider_base_url c)
unfolding require_provider_base_url
provider_given c t e = (t, rw e refl)

queues_given :
    (c : Config) (t u : Text)
    → c.messaging.start_queue_url ≡ some t
    → c.messaging.step_queue_url ≡ some u
    → (d : OutboxDestination) → Succeeds (require_queue_url c d)
unfolding require_queue_url
queues_given c t u e k OutboxDestination.start_queue = (t, rw e refl)
queues_given c t u e k OutboxDestination.step_queue = (u, rw k refl)

equipped : (role : Role) (c : Config) → IsEquipped role c → AccessorsSucceed role c
equipped Role.api c h = table_name_given c _ h.0.1
equipped Role.worker c h = (table_name_given c _ h.0.1, provider_given c _ h.1.1)
equipped Role.publisher c h = (table_name_given c _ h.0.1, queues_given c _ _ h.1.1 h.2.1)
equipped Role.reconciler c h = (table_name_given c _ h.0.1, queues_given c _ _ h.1.1 h.2.1)

-- With a configuration that was loaded for its role, a task never sees an accessor throw: not the
-- table's name, nor, for a worker, the provider's URL, nor, for the publisher and the reconciler,
-- the URL of either queue.
pub accessors_succeed :
    (coerce_number : Text → Number) (role : Role) (env : Env) (c : Config)
    → load_config coerce_number role env ≡ ok c
    → AccessorsSucceed role c
accessors_succeed coerce_number role env c e =
    equipped role c ((load_config_iff coerce_number env role c).0 e).3
