-- ===== src/Contracts/Domain.antt =====
-- packages/contracts/src/domain.ts and provider.ts: the business values and their schemas.
use api_proxy.Base.{
  ℕ, Bool, true, false, ◌&&◌, Text, codes, text_eq, Option, none, some, List, [], ◌∷◌, leb, ◌==◌,
  length, all, if◌then◌else◌,
}
use api_proxy.Contracts.Ids.{length_within}
use api_proxy.Contracts.Json.{Json, property, entries}
use api_proxy.Contracts.Workflow.{positive}

infixl 5 ◌>>=◌
abbrev pub ◌>>=◌ {ℓ κ} : {A : Type ℓ} {B : Type κ} → Option A → (A → Option B) → Option B
none >>= f = none
some a >>= f = f a

pub data OperationKind : Type 0 where
  charge refund : OperationKind

pub data RiskBand : Type 0 where
  low medium high : RiskBand

pub data ProviderStatus : Type 0 where
  settled declined : ProviderStatus

pub record Money : Type 0 where
  pub currency_code : Text
  pub minor_units : ℕ

pub record OperationInput : Type 0 where
  pub operation : OperationKind
  pub amount : Money
  pub reference : Text
  pub metadata : Option (List (Text × Text))

pub record Enrichment : Type 0 where
  pub normalized_reference : Text
  pub risk_band : RiskBand
  pub enriched_at : ℕ

pub record OperationResult : Type 0 where
  pub provider_operation_id : Text
  pub outcome : ProviderStatus
  pub amount : Money
  pub risk_band : RiskBand
  pub completed_at : ℕ

pub record ProviderOperationRequest : Type 0 where
  pub operation : OperationKind
  pub amount : Money
  pub reference : Text
  pub risk_band : RiskBand

pub record ProviderOperationResponse : Type 0 where
  pub operation_id : Text
  pub idempotency_key : Text
  pub status : ProviderStatus
  pub decline_reason : Option Text
  pub amount : Money
  pub processed_at : ℕ

abbrev pub keep_if {ℓ} : {A : Type ℓ} → Bool → A → Option A
keep_if true a = some a
keep_if false a = none

unfoldable pub text_schema : ℕ → ℕ → Json → Option Text
text_schema lo hi (Json.text t) = keep_if (length_within lo hi t) t
text_schema _ _ _ = none

unfoldable pub number_schema : (ℕ → Bool) → Json → Option ℕ
number_schema p (Json.number n) = keep_if (p n) n
number_schema _ _ = none

-- /^[A-Z]{3}$/
is_currency_code : Text → Bool
is_currency_code t = length t == 3 && all (λ c. leb b'A' c && leb c b'Z') t

currency_schema : Json → Option Text
unfolding is_currency_code
currency_schema (Json.text t) = keep_if (is_currency_code t) t
currency_schema _ = none

abbrev pub max_minor_units : ℕ
max_minor_units = 1_000_000_000

unfoldable pub money_schema : Json → Option Money
unfolding currency_schema number_schema property
money_schema (Json.object fs) = do
  currency ← property (codes "currencyCode") fs >>= currency_schema
  units ←
      property (codes "minorUnits") fs >>= number_schema (λ n. positive n && leb n max_minor_units)
  some (record { currency_code = currency; minor_units = units })
money_schema _ = none

operation_kind_schema : Json → Option OperationKind
operation_kind_schema (Json.text t) =
    if text_eq t (codes "CHARGE")
    then some OperationKind.charge
    else if text_eq t (codes "REFUND")
    then some OperationKind.refund
    else none
operation_kind_schema _ = none

metadata_entries : List (Text × Json) → Option (List (Text × Text))
unfolding text_schema
metadata_entries [] = some []
metadata_entries ((k, v) ∷ rest) = do
  key ← keep_if (length_within 1 64 k) k
  value ← text_schema 0 256 v
  others ← metadata_entries rest
  some ((key, value) ∷ others)

metadata_schema : Json → Option (List (Text × Text))
unfolding metadata_entries
metadata_schema (Json.object fs) = do
  checked ← metadata_entries (entries fs)
  keep_if (leb (length checked) 10) checked
metadata_schema _ = none

optional_metadata : Option Json → Option (Option (List (Text × Text)))
unfolding metadata_schema
optional_metadata none = some none
optional_metadata (some v) = metadata_schema v >>= λ m. some (some m)

-- Unknown keys are stripped, as zod does for an object that is not `strict`.
unfoldable pub operation_input_schema : Json → Option OperationInput
unfolding operation_kind_schema money_schema text_schema optional_metadata property
operation_input_schema (Json.object fs) = do
  kind ← property (codes "operation") fs >>= operation_kind_schema
  money ← property (codes "amount") fs >>= money_schema
  reference ← property (codes "reference") fs >>= text_schema 1 64
  metadata ← optional_metadata (property (codes "metadata") fs)
  some (record { operation = kind; amount = money; reference = reference; metadata = metadata })
operation_input_schema _ = none

provider_status_schema : Json → Option ProviderStatus
provider_status_schema (Json.text t) =
    if text_eq t (codes "SETTLED")
    then some ProviderStatus.settled
    else if text_eq t (codes "DECLINED")
    then some ProviderStatus.declined
    else none
provider_status_schema _ = none

optional_decline_reason : Option Json → Option (Option Text)
unfolding text_schema
optional_decline_reason none = some none
optional_decline_reason (some v) = text_schema 0 256 v >>= λ t. some (some t)

unfoldable pub provider_operation_response_schema : Json → Option ProviderOperationResponse
unfolding text_schema number_schema money_schema provider_status_schema optional_decline_reason
    property
provider_operation_response_schema (Json.object fs) = do
  operation_id ← property (codes "operationId") fs >>= text_schema 1 128
  key ← property (codes "idempotencyKey") fs >>= text_schema 1 128
  status ← property (codes "status") fs >>= provider_status_schema
  reason ← optional_decline_reason (property (codes "declineReason") fs)
  money ← property (codes "amount") fs >>= money_schema
  processed_at ← property (codes "processedAt") fs >>= number_schema positive
  some (record {
    operation_id = operation_id;
    idempotency_key = key;
    status = status;
    decline_reason = reason;
    amount = money;
    processed_at = processed_at;
  })
provider_operation_response_schema _ = none
