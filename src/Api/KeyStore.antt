-- ===== src/Api/KeyStore.antt =====
-- apps/api/src/auth/api-key-store.ts: the credential document and the index of its keys.
pub mod Index
pub mod Store
pub mod Steps
pub mod Stepwise
pub mod Answers
pub mod Loaded
pub mod Known
pub mod Tenants
use api_proxy.Base.{
  ℕ, ◌≡◌, Bool, true, false, ◌&&◌, Text, codes, text_eq, Option, none, some, List, [], ◌∷◌, ◌++◌,
  leb, ltb, length, if◌then◌else◌, Result, ok, err,
}
use api_proxy.Contracts.Errors.{ErrorCode, Thrown, app_error, non_retryable_error}
use api_proxy.Contracts.Ids.{Platform, tenant_id_schema, hex64_schema, length_within}
use api_proxy.Contracts.Json.{Json, Items, nil, cons, property}
use api_proxy.Contracts.Json.Parse.{json_parse}
use api_proxy.Contracts.Workflow.{positive}
use api_proxy.Contracts.Domain.{◌>>=◌, keep_if}

pub data TenantStatus : Type 0 where
  active disabled : TenantStatus

pub record KeyEntry : Type 0 where
  pub kid : Text
  pub hash : Text
  pub expires_at : Option ℕ

pub record TenantEntry : Type 0 where
  pub tenant_id : Text
  pub status : TenantStatus
  pub keys : List KeyEntry

pub record ApiKeyDocument : Type 0 where
  pub tenants : List TenantEntry

pub record ResolvedCaller : Type 0 where
  pub tenant_id : Text
  pub kid : Text

text_with : (Text → Bool) → Json → Option Text
text_with p (Json.text t) = keep_if (p t) t
text_with p _ = none

status_schema : Json → Option TenantStatus
status_schema (Json.text t) =
    if text_eq t (codes "active")
    then some TenantStatus.active
    else if text_eq t (codes "disabled")
    then some TenantStatus.disabled
    else none
status_schema _ = none

expires_at_schema : Option Json → Option (Option ℕ)
expires_at_schema none = some none
expires_at_schema (some (Json.number n)) = keep_if (positive n) (some n)
expires_at_schema (some _) = none

key_entry_schema : Json → Option KeyEntry
unfolding text_with expires_at_schema property
key_entry_schema (Json.object fs) = do
  kid ← property (codes "kid") fs >>= text_with (length_within 1 64)
  hash ← property (codes "hash") fs >>= text_with hex64_schema
  expires_at ← expires_at_schema (property (codes "expiresAt") fs)
  some (record { kid = kid; hash = hash; expires_at = expires_at })
key_entry_schema _ = none

each : {A : Type 0} → (Json → Option A) → Items → Option (List A)
each schema nil = some []
each schema (cons v vs) = do a ← schema v; others ← each schema vs; some (a ∷ others)

array_schema : {A : Type 0} → (Json → Option A) → (ℕ → Bool) → Json → Option (List A)
unfolding each
array_schema schema p (Json.array xs) = each schema xs >>= λ l. keep_if (p (length l)) l
array_schema schema p _ = none

tenant_entry_schema : Json → Option TenantEntry
unfolding text_with status_schema array_schema key_entry_schema property
tenant_entry_schema (Json.object fs) = do
  tenant_id ← property (codes "tenantId") fs >>= text_with tenant_id_schema
  status ← property (codes "status") fs >>= status_schema
  keys ← property (codes "keys") fs >>= array_schema key_entry_schema (λ n. leb 1 n)
  some (record { tenant_id = tenant_id; status = status; keys = keys })
tenant_entry_schema _ = none

unfoldable pub api_key_document_schema : Json → Option ApiKeyDocument
unfolding array_schema tenant_entry_schema property
api_key_document_schema (Json.object fs) = do
  tenants ← property (codes "tenants") fs >>= array_schema tenant_entry_schema (λ n. leb n 10_000)
  some (record { tenants = tenants })
api_key_document_schema _ = none

-- `Map<string, ResolvedCaller>`
abbrev pub Index : Type 0
Index = List (Text × ResolvedCaller)

unfoldable pub index_get : Text → Index → Option ResolvedCaller
index_get h [] = none
index_get h ((g, c) ∷ index) = if text_eq g h then some c else index_get h index

unfoldable pub index_set : Text → ResolvedCaller → Index → Index
index_set h c [] = (h, c) ∷ []
index_set h c ((g, d) ∷ index) =
    if text_eq g h then (g, c) ∷ index else (g, d) ∷ index_set h c index

-- `key.expiresAt !== undefined && key.expiresAt <= now`
abbrev pub is_expired : ℕ → Option ℕ → Bool
is_expired now none = false
is_expired now (some t) = leb t now

-- The inner loop.
unfoldable pub add_keys : ℕ → Text → List KeyEntry → Index → Index
unfolding index_set
add_keys now tenant_id [] index = index
add_keys now tenant_id (k ∷ ks) index = add_keys now tenant_id ks (
    if is_expired now k.expires_at
    then index
    else index_set k.hash (record { tenant_id = tenant_id; kid = k.kid }) index)

abbrev pub active_keys : TenantStatus → List KeyEntry → List KeyEntry
active_keys TenantStatus.active keys = keys
active_keys TenantStatus.disabled keys = []

-- The outer loop, which skips a tenant that is disabled.
unfoldable pub add_tenants : ℕ → List TenantEntry → Index → Index
unfolding add_keys
add_tenants now [] index = index
add_tenants now (t ∷ ts) index =
    add_tenants now ts (add_keys now t.tenant_id (active_keys t.status t.keys) index)

abbrev invalid_document : Text → Thrown
invalid_document m = app_error (non_retryable_error ErrorCode.internal_error m)

-- The number of issues, which is part of the message, is left out.
unfoldable pub parse_document : Text → Result Thrown ApiKeyDocument
unfolding json_parse api_key_document_schema
parse_document text = elim (json_parse text) [
  | none ↦ err (invalid_document (codes "api key document is not valid JSON"))
  | some raw ↦ elim (api_key_document_schema raw) [
    | none ↦ err (invalid_document (codes "api key document failed validation"))
    | some d ↦ ok d
  ]
]

unfoldable pub build_index : Text → ℕ → Result Thrown Index
unfolding parse_document add_tenants
build_index text now = elim (parse_document text) [
  | err e ↦ err e
  | ok d ↦ ok (add_tenants now d.tenants [])
]

-- `InlineApiKeyStore`: built once, it only looks keys up.
unfoldable pub inline_store : Text → ℕ → Result Thrown Index
unfolding build_index
inline_store text now = build_index text now

unfoldable pub inline_resolve : Platform → Index → Text → Option ResolvedCaller
unfolding index_get
inline_resolve platform index presented = index_get (platform.sha256_hex presented) index
