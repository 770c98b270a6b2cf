-- ===== src/Worker/Enrich.antt =====
-- apps/worker-a/src/enrich.ts: the enrichment of the stored input.
use api_proxy.Base.{
  ℕ, ◌-◌, ◌≡◌, true, ◌&&◌, Text, codes, text_eq, List, [], ◌∷◌, ◌++◌, any, take, ltb, leb,
  if◌then◌else◌, none, some, Result, ok, err,
}
use api_proxy.Contracts.Errors.{ErrorCode, Thrown, app_error, non_retryable_error}
use api_proxy.Contracts.Json.{Json, end, field}
use api_proxy.Contracts.Domain.{
  OperationKind, RiskBand, OperationInput, Enrichment, operation_input_schema,
}

abbrev pub upper_ascii : ℕ → ℕ
upper_ascii c = if leb b'a' c && leb c b'z' then c - 32 else c

-- `String.prototype.toUpperCase` follows Unicode's tables, which map ASCII unit by unit.
pub record CaseMapping : Type 0 where
  pub upper : Text → Text
  pub upper-ascii : (c : ℕ) (t : Text) → ltb c 128 ≡ true → upper (c ∷ t) ≡ upper_ascii c ∷ upper t

unfoldable pub risk_band_for : OperationInput → RiskBand
risk_band_for input =
    if leb 500_000 input.amount.minor_units
    then RiskBand.high
    else if leb 100_000 input.amount.minor_units
    then RiskBand.medium
    else RiskBand.low

abbrev pub operation_name : OperationKind → Text
operation_name OperationKind.charge = codes "CHARGE"
operation_name OperationKind.refund = codes "REFUND"

abbrev pub risk_band_name : RiskBand → Text
risk_band_name RiskBand.low = codes "LOW"
risk_band_name RiskBand.medium = codes "MEDIUM"
risk_band_name RiskBand.high = codes "HIGH"

unfoldable pub parse_workflow_input : Json → Result Thrown OperationInput
parse_workflow_input input = elim (operation_input_schema input) [
  | some parsed ↦ ok parsed
  | none ↦ err (
      app_error (
        non_retryable_error ErrorCode.workflow_input_invalid
          (codes "stored workflow input failed validation")))
]

abbrev pub supported_currencies : List Text
supported_currencies = codes "USD" ∷ codes "EUR" ∷ codes "GBP" ∷ codes "ILS" ∷ []

unfoldable pub assert_supported_currency : OperationInput → Result Thrown (Unit {0})
assert_supported_currency input =
    if any (text_eq input.amount.currency_code) supported_currencies
    then ok tt
    else err (
        app_error (
          non_retryable_error ErrorCode.unsupported_currency
            (codes "currency " ++ (input.amount.currency_code ++ codes " is not supported"))))

module _ (cases : CaseMapping) where
  unfoldable pub normalize_reference : OperationInput → Text
  normalize_reference input =
      take 80 (cases.upper (operation_name input.operation ++ (codes ":" ++ input.reference)))

  unfoldable pub enrich : OperationInput → ℕ → Enrichment
  enrich input at = record {
    normalized_reference = normalize_reference input;
    risk_band = risk_band_for input;
    enriched_at = at;
  }

-- The object as it is stored on the step and sent to the next one.
unfoldable pub enrichment_json : Enrichment → Json
enrichment_json e = Json.object (
    field (codes "normalizedReference") (Json.text e.normalized_reference) (
      field (codes "riskBand") (Json.text (risk_band_name e.risk_band))
        (field (codes "enrichedAt") (Json.number e.enriched_at) end)))
