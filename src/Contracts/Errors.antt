-- ===== src/Contracts/Errors.antt =====
-- packages/contracts/src/errors.ts: the classified errors, and whatever else a `catch` may see.
use api_proxy.Base.{Text, Bool, true, false, Option, none, some, List}

pub data FailureClass : Type 0 where
  retryable non_retryable unknown_external_state : FailureClass

pub data ErrorCode : Type 0 where
  unauthenticated validation_failed payload_too_large idempotency_key_conflict : ErrorCode
  not_found service_draining request_budget_exceeded internal_error : ErrorCode
  result_too_large unsupported_currency workflow_input_invalid provider_rejected : ErrorCode
  provider_unavailable provider_state_unknown message_schema_invalid : ErrorCode
  workflow_missing state_conflict : ErrorCode

-- `details` and `cause` are diagnostic only and are left out.
pub record AppError : Type 0 where
  pub code : ErrorCode
  pub message : Text
  pub failure_class : FailureClass

abbrev pub retryable_error : ErrorCode → Text → AppError
retryable_error c m = record { code = c; message = m; failure_class = FailureClass.retryable }

abbrev pub non_retryable_error : ErrorCode → Text → AppError
non_retryable_error c m = record {
  code = c;
  message = m;
  failure_class = FailureClass.non_retryable;
}

abbrev pub unknown_external_state_error : ErrorCode → Text → AppError
unknown_external_state_error c m = record {
  code = c;
  message = m;
  failure_class = FailureClass.unknown_external_state;
}

-- The documented codes of a `CancellationReason`; an absent code is `no_reason` too.
pub data Reason : Type 0 where
  no_reason conditional_check_failed transaction_conflict throttling_error : Reason
  provisioned_throughput_exceeded item_collection_size_limit_exceeded : Reason
  validation_error : Reason

-- What a `catch` clause may be handed. The texts are `error.message`; an error of no class that
-- the source names comes with its `name` first.
pub data Thrown : Type 0 where
  app_error : AppError → Thrown
  conditional_check_failed_exception : Text → Thrown
  transaction_canceled_exception : List Reason → Text → Thrown
  other_error : Text → Text → Thrown

unfoldable pub is_app_error : Thrown → Bool
is_app_error (app_error e) = true
is_app_error _ = false

-- `isAppError(error) && error.failureClass === "NON_RETRYABLE"`, with the error.
abbrev pub permanent : Thrown → Option AppError
permanent (app_error e) = elim e.failure_class [
  | FailureClass.non_retryable ↦ some e
  | FailureClass.retryable ↦ none
  | FailureClass.unknown_external_state ↦ none
]
permanent _ = none

unfoldable pub error_message : Thrown → Text
error_message (app_error e) = e.message
error_message (conditional_check_failed_exception m) = m
error_message (transaction_canceled_exception rs m) = m
error_message (other_error n m) = m

unfoldable pub classify_unknown : Thrown → AppError
unfolding error_message
classify_unknown (app_error e) = e
classify_unknown t = retryable_error ErrorCode.internal_error (error_message t)
