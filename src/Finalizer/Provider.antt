-- ===== src/Finalizer/Provider.antt =====
-- apps/finalizer/src/provider-client.ts: the external provider over HTTP.
pub mod Answers
use api_proxy.Base.{
  ℕ, ◌≡◌, ◌||◌, Bool, Text, codes, text_eq, decimal, List, [], ◌∷◌, ◌++◌, any, leb, ◌==◌,
  if◌then◌else◌, Option, none, some, Result, ok, err, Exec,
}
use api_proxy.Contracts.Errors.{
  AppError, ErrorCode, Thrown, app_error, retryable_error, non_retryable_error,
  unknown_external_state_error,
}
use api_proxy.Contracts.Ids.{Platform}
use api_proxy.Contracts.Json.{Json}
use api_proxy.Contracts.Domain.{
  ProviderOperationRequest, ProviderOperationResponse, provider_operation_response_schema,
}
use api_proxy.Repository.{RepositoryOptions}
use api_proxy.Repository.Commit.{Evolves}
use api_proxy.Repository.Service.{Service}

-- What the handler is given.
pub record ProviderClient (platform : Platform) (options : RepositoryOptions)
    (s : Service platform options) : Type 0 where
  pub execute : Text → ProviderOperationRequest → Exec s.World Thrown ProviderOperationResponse
  pub lookup : Text → Exec s.World Thrown (Option ProviderOperationResponse)
  pub execute_lem :
      (ref : Text) (request : ProviderOperationRequest) (w : s.World)
      → Evolves platform options (s.table w) (s.table (execute ref request w).1)
  pub lookup_lem :
      (ref : Text) (w : s.World) → Evolves platform options (s.table w) (s.table (lookup ref w).1)

-- What axios throws: one of its own errors, with its code, or something else.
pub data TransportFailure : Type 0 where
  axios_error : Option Text → TransportFailure
  foreign_error : TransportFailure

pub record Response : Type 0 where
  pub status : ℕ
  pub body : Json

-- axios, a third-party package: a call ends with a response or is thrown out of. It does not
-- touch the table, but other tasks go on meanwhile.
pub record Http (platform : Platform) (options : RepositoryOptions) (s : Service platform options)
    : Type 0 where
  pub post : Text → ProviderOperationRequest → s.World → Result TransportFailure Response × s.World
  pub get : Text → s.World → Result TransportFailure Response × s.World
  pub post_lem :
      (ref : Text) (request : ProviderOperationRequest) (w : s.World)
      → Evolves platform options (s.table w) (s.table (post ref request w).1)
  pub get_lem :
      (ref : Text) (w : s.World) → Evolves platform options (s.table w) (s.table (get ref w).1)

abbrev pub never_delivered : List Text
never_delivered = codes "ECONNREFUSED" ∷ codes "ENOTFOUND" ∷ codes "EAI_AGAIN" ∷ []

abbrev pub ambiguous : List Text
ambiguous =
    codes "ECONNABORTED"
    ∷ codes "ETIMEDOUT"
    ∷ codes "ECONNRESET"
    ∷ codes "EPIPE"
    ∷ codes "ERR_BAD_RESPONSE"
    ∷ []

-- `axios.isAxiosError(error) ? (error.code ?? "") : ""`
abbrev pub transport_code : TransportFailure → Text
transport_code (axios_error (some code)) = code
transport_code (axios_error none) = []
transport_code foreign_error = []

-- `code || "no code"`
abbrev code_or_none : Text → Text
code_or_none [] = codes "no code"
code_or_none (c ∷ t) = c ∷ t

unfoldable pub classify_transport_error : TransportFailure → AppError
classify_transport_error error =
    let code = transport_code error in
    if any (text_eq code) never_delivered
    then retryable_error ErrorCode.provider_unavailable
        (codes "provider unreachable (" ++ (code ++ codes "); the request was never delivered"))
    else if any (text_eq code) ambiguous || text_eq code []
    then unknown_external_state_error ErrorCode.provider_state_unknown (
        codes "provider outcome unknown ("
        ++ (code_or_none code ++ codes "); the operation may have been executed"))
    else unknown_external_state_error ErrorCode.provider_state_unknown
        (codes "provider call failed with " ++ code)

-- The body of a response with a good status.
unfoldable pub accept_response :
    Text → Option ProviderOperationResponse → Result Thrown ProviderOperationResponse
accept_response external_ref none = err (
    app_error (
      unknown_external_state_error ErrorCode.provider_state_unknown
        (codes "provider response failed schema validation")))
accept_response external_ref (some parsed) =
    if text_eq parsed.idempotency_key external_ref
    then ok parsed
    else err (
        app_error (
          unknown_external_state_error ErrorCode.provider_state_unknown
            (codes "provider echoed a different idempotency key")))

-- What `execute` makes of the answer to its POST.
unfoldable pub execute_answer :
    Text → Result TransportFailure Response → Result Thrown ProviderOperationResponse
unfolding classify_transport_error accept_response
execute_answer external_ref (err error) = err (app_error (classify_transport_error error))
execute_answer external_ref (ok response) =
    if response.status == 429 || leb 500 response.status
    then err (
        app_error (
          retryable_error ErrorCode.provider_unavailable
            (codes "provider returned " ++ decimal response.status)))
    else if leb 400 response.status
    then err (
        app_error (
          non_retryable_error ErrorCode.provider_rejected
            (codes "provider rejected the operation with " ++ decimal response.status)))
    else accept_response external_ref (provider_operation_response_schema response.body)

abbrev lookup_failed : {A : Type 0} → Text → Result Thrown A
lookup_failed message = err (app_error (retryable_error ErrorCode.provider_unavailable message))

unfoldable pub accept_lookup :
    Option ProviderOperationResponse → Result Thrown (Option ProviderOperationResponse)
accept_lookup none = lookup_failed (codes "provider lookup response failed schema validation")
accept_lookup (some parsed) = ok (some parsed)

-- What `lookup` makes of the answer to its GET.
unfoldable pub lookup_answer :
    Result TransportFailure Response → Result Thrown (Option ProviderOperationResponse)
unfolding accept_lookup
lookup_answer (err error) = lookup_failed (codes "provider reconciliation lookup failed")
lookup_answer (ok response) =
    if response.status == 404
    then ok none
    else if response.status == 200
    then accept_lookup (provider_operation_response_schema response.body)
    else lookup_failed (codes "provider lookup returned " ++ decimal response.status)

module _ {platform : Platform} {options : RepositoryOptions} (s : Service platform options)
    (http : Http platform options s) where
  unfoldable pub execute :
      Text → ProviderOperationRequest → Exec s.World Thrown ProviderOperationResponse
  unfolding execute_answer
  execute external_ref request w =
      let (r, v) = http.post external_ref request w in (execute_answer external_ref r, v)

  unfoldable pub lookup : Text → Exec s.World Thrown (Option ProviderOperationResponse)
  unfolding lookup_answer
  lookup external_ref w = let (r, v) = http.get external_ref w in (lookup_answer r, v)

  unfoldable pub http_provider_client : ProviderClient platform options s
  unfolding execute lookup
  http_provider_client = record {
    execute = execute;
    lookup = lookup;
    execute_lem = http.post_lem;
    lookup_lem = http.get_lem;
  }
