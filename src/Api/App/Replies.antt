-- ===== src/Api/App/Replies.antt =====
-- app.ts: the replies, the error handler and the health routes.
use api_proxy.Base.{ℕ, Bool, Text, codes, text_eq, ltb, Option, none, some, ◌++◌, if◌then◌else◌}
use api_proxy.Contracts.Errors.{ErrorCode, Thrown, error_message}
use api_proxy.Contracts.Workflow.{WorkflowRecord, WorkflowStatus, WorkflowError}
use api_proxy.Lifecycle.{LifecycleState, is_live, is_accepting_work}
use api_proxy.Api.Problems.{
  HttpProblem, payload_too_large, validation, internal, draining, budget_exhausted,
}
use api_proxy.Api.App.{
  FastifyError, Body, problem, completed, failed, processing, live, ready, Reply, Settings,
}

-- `reply.sent ? reply : …`: what was sent first stays.
unfoldable pub send_once : Option Reply → Reply → Option Reply
send_once none r = some r
send_once (some sent) r = some sent

unfoldable pub send_problem : HttpProblem → Reply
send_problem p = record { status = p.status; retry_after = none; body = problem p }

unfoldable pub error_code : Option WorkflowError → ErrorCode
error_code none = ErrorCode.internal_error
error_code (some e) = e.code

unfoldable pub failure_message : Option WorkflowError → Text
failure_message none = codes "workflow failed"
failure_message (some e) = e.message

unfoldable pub terminal_body : WorkflowRecord → Body
unfolding error_code failure_message
terminal_body w = elim w.status [
  | WorkflowStatus.completed ↦ completed w.request_id w.result
  | WorkflowStatus.failed ↦ failed w.request_id (error_code w.error) (failure_message w.error)
  | WorkflowStatus.processing ↦ failed w.request_id (error_code w.error) (failure_message w.error)
]

unfoldable pub terminal_reply : WorkflowRecord → Reply
unfolding terminal_body
terminal_reply w = record { status = 200; retry_after = none; body = terminal_body w }

unfoldable pub processing_body : Settings → Text → Body
processing_body settings request_id =
    processing request_id (settings.public_base_url ++ (codes "/v1/process/" ++ request_id)) 1

-- The answer at the synchronous deadline.
unfoldable pub accepted_reply : Settings → Text → Reply
unfolding processing_body
accepted_reply settings request_id = record {
  status = 202;
  retry_after = some 1;
  body = processing_body settings request_id;
}

unfoldable pub processing_reply : Settings → Text → Reply
unfolding processing_body
processing_reply settings request_id = record {
  status = 200;
  retry_after = none;
  body = processing_body settings request_id;
}

unfoldable pub draining_reply : Reply
draining_reply = record { status = 503; retry_after = some 5; body = problem draining }

-- What the timer of the request budget sends.
unfoldable pub budget_reply : Reply
budget_reply = record { status = 503; retry_after = some 1; body = problem budget_exhausted }

abbrev is_too_large : Option Text → Bool
is_too_large none = Bool.false
is_too_large (some code) = text_eq code (codes "FST_ERR_CTP_BODY_TOO_LARGE")

abbrev is_client_error : Option ℕ → Bool
is_client_error none = Bool.false
is_client_error (some status) = ltb status 500

-- `setErrorHandler`
unfoldable pub handle_error : Settings → FastifyError → Reply
unfolding send_problem
handle_error settings e =
    if is_too_large e.code
    then send_problem (payload_too_large settings.max_request_payload_bytes)
    else if is_client_error e.status_code
    then send_problem (validation e.message)
    else send_problem internal

-- What a handler throws carries no code of the framework and no status.
unfoldable pub thrown_error : Thrown → FastifyError
unfolding error_message
thrown_error e = record { code = none; status_code = none; message = error_message e }

unfoldable pub live_reply : LifecycleState → Reply
unfolding is_live
live_reply state = record {
  status = if is_live state then 200 else 503;
  retry_after = none;
  body = live (is_live state);
}

unfoldable pub ready_reply : LifecycleState → Reply
unfolding is_accepting_work
ready_reply state = record {
  status = if is_accepting_work state then 200 else 503;
  retry_after = none;
  body = ready (is_accepting_work state) state;
}
