-- ===== src/Messaging/Parse.antt =====
-- packages/messaging/src/parse.ts: the body of a message, before any field is used.
use api_proxy.Base.{
  ◌≡◌, refl, subst, Bool, true, false, Text, codes, Option, none, some, Result, ok, err, arith,
}
use api_proxy.Contracts.Errors.{ErrorCode, Thrown, app_error, non_retryable_error}
use api_proxy.Contracts.Ids.{Platform}
use api_proxy.Contracts.Json.{Json}
use api_proxy.Contracts.Json.Parse.{json_parse}
use api_proxy.Contracts.Domain.{◌>>=◌, keep_if}
use api_proxy.Contracts.Messages.{WorkflowMessage, workflow_message_schema}
use api_proxy.Contracts.Messages.Unknown.{envelope_of, safe_parse_message}

abbrev pub invalid_message : Text → Thrown
invalid_message m = app_error (non_retryable_error ErrorCode.message_schema_invalid m)

module _ (platform : Platform) where
  -- The list of zod's issues at the end of the message is left out.
  abbrev checked_message : Option WorkflowMessage → Result Thrown WorkflowMessage
  checked_message none = err (invalid_message (codes "message failed schema validation"))
  checked_message (some message) = ok message

  abbrev parsed_message : Option Json → Result Thrown WorkflowMessage
  parsed_message none = err (invalid_message (codes "message body is not valid JSON"))
  parsed_message (some raw) = checked_message (safe_parse_message platform raw)

  unfoldable pub parse_workflow_message : Text → Result Thrown WorkflowMessage
  unfolding json_parse safe_parse_message
  parse_workflow_message body = parsed_message (json_parse body)

  keep_if-schema :
      (m n : WorkflowMessage) (b : Bool)
      → workflow_message_schema platform m ≡ b
      → checked_message (keep_if b m) ≡ ok n
      → workflow_message_schema platform n ≡ true
  keep_if-schema m n true h k =
      let e : m ≡ n = ground arith in subst (λ x. workflow_message_schema platform x ≡ true) e h
  keep_if-schema m n false h k = cc

  envelope-schema :
      (o : Option WorkflowMessage) (n : WorkflowMessage)
      → checked_message (o >>= λ m. keep_if (workflow_message_schema platform m) m) ≡ ok n
      → workflow_message_schema platform n ≡ true
  envelope-schema none n h = cc
  envelope-schema (some m) n h = keep_if-schema m n (workflow_message_schema platform m) refl h

  parsed-schema :
      (o : Option Json) (n : WorkflowMessage)
      → parsed_message o ≡ ok n
      → workflow_message_schema platform n ≡ true
  unfolding safe_parse_message
  parsed-schema none n h = cc
  parsed-schema (some raw) n h = envelope-schema (envelope_of raw) n h

  -- The handlers never see a message that does not meet the schema.
  pub parse_workflow_message-schema :
      (body : Text) (n : WorkflowMessage)
      → parse_workflow_message body ≡ ok n
      → workflow_message_schema platform n ≡ true
  unfolding parse_workflow_message
  parse_workflow_message-schema body n h = parsed-schema (json_parse body) n h
