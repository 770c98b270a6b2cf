-- ===== src/Tests/Parse.antt =====
-- The parser of messages: a body of each step, and bodies that are refused.
use api_proxy.Base.{◌≡◌, refl, codes, text_eq, ◌++◌, ok, err, Text}
use api_proxy.Contracts.Ids.{tenant_id_schema, is_tenant_char, hex64_schema, is_hex_char}
use api_proxy.Contracts.Messages.{enrich_payload, payload_schema}
use api_proxy.Contracts.Workflow.{StepId}
use api_proxy.Messaging.Parse.{parse_workflow_message, invalid_message}
use api_proxy.Tests.Memory.{platform}

abbrev body_with : Text → Text → Text
body_with step payload =
    codes "{\"messageId\":\"0000000000000000000000000000000000000000000000000000000000000001\","
    ++ (codes "\"requestId\":\"3f2504e0-4f89-41d3-9a0c-0305e82c3301\",\"tenantId\":\"acme\","
        ++ (codes "\"workflowVersion\":1,\"createdAt\":1700,\"step\":\""
            ++ (step ++ (codes "\",\"payload\":" ++ (payload ++ codes "}")))))

enrich_parsed :
    parse_workflow_message platform (body_with (codes "ENRICH") (codes "{}"))
    ≡ ok (record {
      message_id = codes "0000000000000000000000000000000000000000000000000000000000000001";
      request_id = codes "3f2504e0-4f89-41d3-9a0c-0305e82c3301";
      tenant_id = codes "acme";
      workflow_version = 1;
      created_at = 1700;
      step = StepId.enrich;
      payload = enrich_payload;
    })
unfolding parse_workflow_message text_eq hex64_schema is_hex_char tenant_id_schema is_tenant_char
    payload_schema
enrich_parsed = refl

unknown_step :
    parse_workflow_message platform (body_with (codes "DELETE_EVERYTHING") (codes "{}"))
    ≡ err (invalid_message (codes "message failed schema validation"))
unfolding parse_workflow_message text_eq
unknown_step = refl

smuggled :
    parse_workflow_message platform
      (body_with (codes "ENRICH") (codes "{\"queueUrl\":\"http://evil\"}"))
    ≡ err (invalid_message (codes "message failed schema validation"))
unfolding parse_workflow_message text_eq
smuggled = refl

not_json :
    parse_workflow_message platform (codes "{not json")
    ≡ err (invalid_message (codes "message body is not valid JSON"))
unfolding parse_workflow_message text_eq
not_json = refl
