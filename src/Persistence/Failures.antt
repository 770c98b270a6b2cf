-- ===== src/Persistence/Failures.antt =====
-- packages/persistence/src/errors.ts: DynamoDB's failures, read and classified.
use api_proxy.Base.{
  ℕ, Bool, true, false, Text, codes, text_eq, Option, some, List, [], ◌∷◌, ◌++◌, any, get_elem?,
  if◌then◌else◌,
}
use api_proxy.Contracts.Errors.{
  ErrorCode, AppError, FailureClass, Reason, Thrown, app_error, conditional_check_failed_exception,
  transaction_canceled_exception, other_error, retryable_error, non_retryable_error, error_message,
}

unfoldable pub is_conditional_check_failed : Thrown → Bool
is_conditional_check_failed (conditional_check_failed_exception m) = true
is_conditional_check_failed _ = false

pub record TransactionOutcome : Type 0 where
  pub cancelled : Bool
  pub reasons : List Reason

unfoldable pub read_transaction_outcome : Thrown → TransactionOutcome
read_transaction_outcome (transaction_canceled_exception reasons m) = record {
  cancelled = true;
  reasons = reasons;
}
read_transaction_outcome _ = record { cancelled = false; reasons = [] }

abbrev pub is_condition_failure : Option Reason → Bool
is_condition_failure (some Reason.conditional_check_failed) = true
is_condition_failure _ = false

unfoldable pub condition_failed_at : Thrown → ℕ → Bool
unfolding read_transaction_outcome
condition_failed_at error index =
    is_condition_failure (get_elem? (read_transaction_outcome error).reasons index)

abbrev includes : List Text → Text → Bool
includes names name = any (text_eq name) names

retryable_names : List Text
retryable_names =
    codes "ProvisionedThroughputExceededException"
    ∷ codes "ThrottlingException"
    ∷ codes "RequestLimitExceeded"
    ∷ codes "InternalServerError"
    ∷ codes "ServiceUnavailable"
    ∷ codes "TransactionInProgressException"
    ∷ codes "TimeoutError"
    ∷ []

non_retryable_names : List Text
non_retryable_names =
    codes "ValidationException"
    ∷ codes "ResourceNotFoundException"
    ∷ codes "ItemCollectionSizeLimitExceededException"
    ∷ []

-- `error.name`
unfoldable pub error_name : Thrown → Text
error_name (other_error name m) = name
error_name (conditional_check_failed_exception m) = codes "ConditionalCheckFailedException"
error_name (transaction_canceled_exception rs m) = codes "TransactionCanceledException"
error_name (app_error e) = elim e.failure_class [
  | FailureClass.retryable ↦ codes "RetryableError"
  | FailureClass.non_retryable ↦ codes "NonRetryableError"
  | FailureClass.unknown_external_state ↦ codes "UnknownExternalStateError"
]

abbrev pub is_conflict : Reason → Bool
is_conflict Reason.transaction_conflict = true
is_conflict _ = false

-- The last two `if`s: a cancelled transaction, and everything else.
unfoldable pub classify_unnamed : Thrown → AppError
unfolding error_message
classify_unnamed (transaction_canceled_exception reasons m) =
    if any is_conflict reasons
    then retryable_error ErrorCode.state_conflict (codes "dynamodb: " ++ m)
    else non_retryable_error ErrorCode.state_conflict (codes "dynamodb: " ++ m)
classify_unnamed error =
    retryable_error ErrorCode.internal_error (codes "dynamodb: " ++ error_message error)

unfoldable pub classify_dynamo_error : Thrown → AppError
unfolding retryable_names non_retryable_names error_name error_message classify_unnamed
classify_dynamo_error error =
    if includes retryable_names (error_name error)
    then retryable_error ErrorCode.internal_error (codes "dynamodb: " ++ error_message error)
    else if includes non_retryable_names (error_name error)
    then non_retryable_error ErrorCode.internal_error (codes "dynamodb: " ++ error_message error)
    else classify_unnamed error
