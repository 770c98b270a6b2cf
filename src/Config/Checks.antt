-- ===== src/Config/Checks.antt =====
-- config.ts: the checks between values, `superRefine`.
use api_proxy.Base.{◌+◌, ◌*◌, Bool, is_some, List, [], ◌∷◌, ◌++◌, ltb, leb, if◌then◌else◌}
use api_proxy.Config.{Environment, Variable, Config}

-- `if (failed) fail(…, path)`; the messages are left out.
abbrev pub fail_if : Bool → Variable → List Variable
fail_if failed path = if failed then path ∷ [] else []

unfoldable pub ladder_issues : Config → List Variable
ladder_issues c =
    let http = c.http in
    let polling = c.polling in
    let business = c.business in
    fail_if (leb http.request_timeout_ms http.sync_wait_timeout_ms) Variable.sync_wait_timeout_ms
    ++ (fail_if (leb http.alb_idle_timeout_ms http.request_timeout_ms)
          Variable.http_request_timeout_ms
        ++ (fail_if (leb http.keep_alive_timeout_ms http.alb_idle_timeout_ms)
              Variable.http_keep_alive_timeout_ms
            ++ (fail_if (ltb http.headers_timeout_ms http.keep_alive_timeout_ms)
                  Variable.http_headers_timeout_ms
                ++ (fail_if (leb http.client_recommended_timeout_ms http.alb_idle_timeout_ms)
                      Variable.client_recommended_timeout_ms
                    ++ (fail_if (ltb http.shutdown_drain_ms http.request_timeout_ms)
                          Variable.shutdown_drain_ms
                        ++ (fail_if (leb http.shutdown_drain_ms http.shutdown_readiness_delay_ms)
                              Variable.shutdown_readiness_delay_ms
                            ++ (fail_if (ltb polling.max_delay_ms polling.initial_delay_ms)
                                  Variable.poll_initial_delay_ms
                                ++ (fail_if (leb http.sync_wait_timeout_ms polling.max_delay_ms)
                                      Variable.poll_max_delay_ms
                                    ++ (fail_if (ltb business.deadline_ms http.sync_wait_timeout_ms)
                                          Variable.business_deadline_ms
                                        ++ fail_if
                                            (ltb (380 * 1024) (
                                              business.max_result_bytes
                                              + business.max_request_payload_bytes))
                                            Variable.max_result_bytes)))))))))

-- What must be absent outside `local`.
unfoldable pub deployed_issues : Config → List Variable
deployed_issues c =
    fail_if (is_some c.auth.inline_keys) Variable.api_keys_inline
    ++ (fail_if (is_some c.persistence.endpoint) Variable.dynamodb_endpoint
        ++ fail_if (is_some c.messaging.endpoint) Variable.sqs_endpoint)

abbrev pub local_issues : Environment → List Variable → List Variable
local_issues Environment.local issues = []
local_issues Environment.dev issues = issues
local_issues Environment.staging issues = issues
local_issues Environment.production issues = issues

unfoldable pub refinement_issues : Config → List Variable
unfolding ladder_issues deployed_issues
refinement_issues c = ladder_issues c ++ local_issues c.env (deployed_issues c)
