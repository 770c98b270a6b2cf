-- ===== src/Contracts/Http.antt =====
-- packages/contracts/src/http.ts: the body of POST /v1/process and the status codes.
use api_proxy.Base.{
  ℕ, Bool, Text, codes, text_eq, Option, none, some, List, [], ◌∷◌, all, any, if◌then◌else◌,
}
use api_proxy.Contracts.Json.{Json, Fields, end, field, entries}
use api_proxy.Contracts.Domain.{OperationKind, OperationInput, operation_input_schema}
use api_proxy.Contracts.Workflow.{WorkflowStatus}

known_keys : List Text
known_keys = codes "operation" ∷ codes "amount" ∷ codes "reference" ∷ codes "metadata" ∷ []

-- `.strict()`: no key that the schema does not name.
unfoldable pub has_known_keys : Fields → Bool
unfolding known_keys
has_known_keys fs = all (λ e. any (text_eq e.0) known_keys) (entries fs)

unfoldable pub process_request_schema : Json → Option OperationInput
unfolding operation_input_schema has_known_keys
process_request_schema (Json.object fs) =
    if has_known_keys fs then operation_input_schema (Json.object fs) else none
process_request_schema _ = none

abbrev kind_text : OperationKind → Text
kind_text OperationKind.charge = codes "CHARGE"
kind_text OperationKind.refund = codes "REFUND"

metadata_fields : List (Text × Text) → Fields
metadata_fields [] = end
metadata_fields ((k, v) ∷ l) = field k (Json.text v) (metadata_fields l)

optional_metadata_field : Option (List (Text × Text)) → Fields
unfolding metadata_fields
optional_metadata_field none = end
optional_metadata_field (some l) = field (codes "metadata") (Json.object (metadata_fields l)) end

-- The value that the parsed request is: its keys stand as the schema names them.
unfoldable pub request_json : OperationInput → Json
unfolding optional_metadata_field
request_json input = Json.object (
    field (codes "operation") (Json.text (kind_text input.operation)) (
      field (codes "amount")
        (Json.object (
          field (codes "currencyCode") (Json.text input.amount.currency_code)
            (field (codes "minorUnits") (Json.number input.amount.minor_units) end)))
        (field (codes "reference") (Json.text input.reference)
          (optional_metadata_field input.metadata))))

unfoldable pub status_to_http_code : WorkflowStatus → ℕ
status_to_http_code WorkflowStatus.processing = 202
status_to_http_code WorkflowStatus.completed = 200
status_to_http_code WorkflowStatus.failed = 200
