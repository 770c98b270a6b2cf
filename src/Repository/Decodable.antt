-- ===== src/Repository/Decodable.antt =====
-- The terminal write of workflow-repository.ts and the schema of the readers.
use api_proxy.Base.{ℕ, ◌≡◌, ◌∙◌, Bool, true, ◌&&◌, arith}
use api_proxy.Contracts.Ids.{Platform, tenant_id_schema, idempotency_key_schema, hex64_schema}
use api_proxy.Contracts.Workflow.{workflow_record_schema, workflow_error_schema, positive, optional}
use api_proxy.Persistence.Items.{WorkflowItem}
use api_proxy.Repository.{RepositoryOptions, TerminalOutcome, completed_with, failed_with}
use api_proxy.Repository.Writes.{finished}

-- The schema asks something of an error, and nothing of a result.
abbrev pub outcome_valid : TerminalOutcome → Bool
outcome_valid (completed_with result) = true
outcome_valid (failed_with error) = workflow_error_schema error

-- The eleven tests of the schema: the seventh is of `updatedAt`, the tenth of `error`.
swap_tests :
    (a b c d e f g h i j k p v : Bool)
    → (a && b && c && d && e && f && g && h && i && j && k) ≡ true
    → p ≡ true
    → (a && b && c && d && e && f && p && h && i && v && k) ≡ v
swap_tests a b c d e f g h i j k p v x y = ground arith

tenth_test :
    (a b c d e f g h i j k : Bool)
    → (a && b && c && d && e && f && g && h && i && j && k) ≡ true
    → j ≡ true
tenth_test a b c d e f g h i j k x = ground arith

module _ (platform : Platform) (options : RepositoryOptions) where
  -- A workflow that decodes still does after its terminal write, at a clock past zero, exactly if
  -- the error that it is given meets its own schema; a result is always fine.
  pub finished-decodable :
      (o : TerminalOutcome) (now : ℕ) (i : WorkflowItem)
      → workflow_record_schema platform i.document ≡ true
      → positive now ≡ true
      → workflow_record_schema platform (finished platform options o now i).document
        ≡ outcome_valid o
  unfolding finished workflow_record_schema
  finished-decodable (completed_with v) now i h p =
      let d = i.document in
      swap_tests (platform.is_uuid d.request_id) (tenant_id_schema d.tenant_id)
        (idempotency_key_schema d.idempotency_key) (positive d.workflow_version)
        (hex64_schema d.payload_hash) (positive d.created_at) (positive d.updated_at)
        (optional positive d.sync_deadline_at) (optional positive d.business_deadline_at)
        (optional workflow_error_schema d.error) (optional positive d.expires_at) (positive now)
        (optional workflow_error_schema d.error) h p
      ∙ tenth_test (platform.is_uuid d.request_id) (tenant_id_schema d.tenant_id)
          (idempotency_key_schema d.idempotency_key) (positive d.workflow_version)
          (hex64_schema d.payload_hash) (positive d.created_at) (positive d.updated_at)
          (optional positive d.sync_deadline_at) (optional positive d.business_deadline_at)
          (optional workflow_error_schema d.error) (optional positive d.expires_at) h
  finished-decodable (failed_with x) now i h p =
      let d = i.document in
      swap_tests (platform.is_uuid d.request_id) (tenant_id_schema d.tenant_id)
        (idempotency_key_schema d.idempotency_key) (positive d.workflow_version)
        (hex64_schema d.payload_hash) (positive d.created_at) (positive d.updated_at)
        (optional positive d.sync_deadline_at) (optional positive d.business_deadline_at)
        (optional workflow_error_schema d.error) (optional positive d.expires_at) (positive now)
        (workflow_error_schema x) h p
