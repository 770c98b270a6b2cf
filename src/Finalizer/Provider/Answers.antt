-- ===== src/Finalizer/Provider/Answers.antt =====
-- The answers of provider-client.ts.
use api_proxy.Base.{
  ◌≡◌, refl, ◌<◌, ◌≤◌, ◌⊎◌, ◌↔◌, codes, text_eq_iff, [], true, ◌||◌, Text, text_eq, text_eq→eq, any,
  leb, ◌==◌, Option, none, some, Result, ok, err, arith,
}
use api_proxy.Contracts.Errors.{Thrown, AppError, FailureClass, app_error}
use api_proxy.Contracts.Domain.{ProviderOperationResponse, provider_operation_response_schema}
use api_proxy.Finalizer.Provider.{
  TransportFailure, axios_error, foreign_error, Response, never_delivered, transport_code,
  classify_transport_error, accept_response, execute_answer,
}

accept_response_ok :
    (ref : Text) (o : Option ProviderOperationResponse) (p : ProviderOperationResponse)
    → accept_response ref o ≡ ok p
    → (o ≡ some p) × (p.idempotency_key ≡ ref)
unfolding accept_response
accept_response_ok ref none p h = cc
accept_response_ok ref (some x) p h = ground (arith, text_eq→eq x.idempotency_key ref)

-- An operation that `execute` reports as performed comes from a response below 400 whose body is
-- valid and echoes the very reference that was sent.
pub execute_answer-accepted :
    (ref : Text) (r : Result TransportFailure Response) (p : ProviderOperationResponse)
    → execute_answer ref r ≡ ok p
    → (x : Response) × (r ≡ ok x)
      × (x.status < 400)
      × (provider_operation_response_schema x.body ≡ some p)
      × (p.idempotency_key ≡ ref)
unfolding execute_answer
execute_answer-accepted ref (err e) p h = cc
execute_answer-accepted ref (ok x) p h =
    let y = provider_operation_response_schema x.body in
    (
      x,
      refl,
      ground (arith, accept_response_ok ref y p),
      ground (arith, accept_response_ok ref y p),
      ground (arith, accept_response_ok ref y p),
    )

-- The connection was never made, so that the provider has not seen the request.
abbrev pub IsUndelivered : Text → Type 0
IsUndelivered code =
    (code ≡ codes "ECONNREFUSED") ⊎ ((code ≡ codes "ENOTFOUND") ⊎ (code ≡ codes "EAI_AGAIN"))

-- The answers to a POST after which it may be sent again without asking first.
abbrev pub MayRepeat : Result TransportFailure Response → Type 0
MayRepeat (err (axios_error (some code))) = IsUndelivered code
MayRepeat (err (axios_error none)) = ⊥
MayRepeat (err foreign_error) = ⊥
MayRepeat (ok x) = (x.status ≡ 429) ⊎ (500 ≤ x.status)

abbrev pub FailsRetryably : Result Thrown ProviderOperationResponse → Type 0
FailsRetryably r =
    (e : AppError) × (r ≡ err (app_error e)) × (e.failure_class ≡ FailureClass.retryable)

never_delivered-IsUndelivered :
    (code : Text) → (any (text_eq code) never_delivered ≡ true) ↔ IsUndelivered code
unfolding text_eq
never_delivered-IsUndelivered code = ground (
  arith,
  text_eq_iff code (codes "ECONNREFUSED"),
  text_eq_iff code (codes "ENOTFOUND"),
  text_eq_iff code (codes "EAI_AGAIN"),
)

-- The answers to a POST after which it is sent again without asking first.
abbrev pub IsRefused : Result TransportFailure Response → Type 0
IsRefused (err e) = any (text_eq (transport_code e)) never_delivered ≡ true
IsRefused (ok x) = (x.status == 429 || leb 500 x.status) ≡ true

classify_transport_error-retryable :
    (e : TransportFailure)
    → (classify_transport_error e).failure_class ≡ FailureClass.retryable
    → any (text_eq (transport_code e)) never_delivered ≡ true
unfolding classify_transport_error
classify_transport_error-retryable e h = ground arith

accept_response-retryable :
    (ref : Text) (o : Option ProviderOperationResponse) (e : AppError)
    → accept_response ref o ≡ err (app_error e)
    → e.failure_class ≡ FailureClass.retryable
    → ⊥
unfolding accept_response
accept_response-retryable ref none e h k = ground arith
accept_response-retryable ref (some x) e h k = ground arith

no_code : IsUndelivered [] → ⊥
no_code h = ground arith

repeats :
    (ref : Text) (r : Result TransportFailure Response) (e : AppError)
    → execute_answer ref r ≡ err (app_error e)
    → e.failure_class ≡ FailureClass.retryable
    → MayRepeat r
unfolding execute_answer
repeats ref (err (axios_error (some code))) e h k =
    (never_delivered-IsUndelivered code).0
      (ground (arith, classify_transport_error-retryable (axios_error (some code))))
repeats ref (err (axios_error none)) e h k = no_code (
    (never_delivered-IsUndelivered []).0
      (ground (arith, classify_transport_error-retryable (axios_error none))))
repeats ref (err foreign_error) e h k = no_code (
    (never_delivered-IsUndelivered []).0
      (ground (arith, classify_transport_error-retryable foreign_error)))
repeats ref (ok x) e h k =
    ground (arith, accept_response-retryable ref (provider_operation_response_schema x.body) e)

undelivered :
    (code : Text)
    → any (text_eq code) never_delivered ≡ true
    → (classify_transport_error (axios_error (some code))).failure_class ≡ FailureClass.retryable
unfolding classify_transport_error
undelivered code h = ground arith

refused :
    (ref : Text) (x : Response)
    → (x.status == 429 || leb 500 x.status) ≡ true
    → FailsRetryably (execute_answer ref (ok x))
unfolding execute_answer
refused ref x h = rw h (_, refl, refl)

fails :
    (ref : Text) (r : Result TransportFailure Response)
    → MayRepeat r
    → FailsRetryably (execute_answer ref r)
unfolding execute_answer
fails ref (err (axios_error (some code))) h =
    (_, refl, undelivered code ((never_delivered-IsUndelivered code).1 h))
fails ref (err (axios_error none)) h = absurd h
fails ref (err foreign_error) h = absurd h
fails ref (ok x) h = refused ref x (ground arith)

-- `execute` fails with a RETRYABLE error exactly after the answers that permit to send the request
-- again: the connection was never made (ECONNREFUSED, ENOTFOUND, EAI_AGAIN), or the provider
-- refused the request with 429 or a status of 500 or more. After a timeout, a reset, or an
-- unreadable or foreign answer below 400 it never does.
pub execute_answer-FailsRetryably :
    (ref : Text) (r : Result TransportFailure Response)
    → FailsRetryably (execute_answer ref r) ↔ MayRepeat r
execute_answer-FailsRetryably ref r = (λ (e, h, k). repeats ref r e h k, fails ref r)
