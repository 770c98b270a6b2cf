-- ===== src/Repository/Commit/Links/Mapping.antt =====
-- Idempotency mappings and the workflows that they point at.
use api_proxy.Base.{
  ℕ, ◌≡◌, refl, sym, ap, ◌∙◌, ◌⊎◌, inl, inr, true, Text, text_eq→eq, text_eq_refl, Option, none,
  some, arith,
}
use api_proxy.Contracts.Ids.{Platform, tenant_id_schema}
use api_proxy.Persistence.Keys.{workflow_key, idempotency_key_item, same_key}
use api_proxy.Persistence.Keys.Apart.{same_key→eq, same_key_refl}
use api_proxy.Persistence.Items.{Item, workflow_item, idempotency_item}
use api_proxy.Persistence.Dynamo.{Table, AllHold, perform_all}
use api_proxy.Repository.{
  RepositoryOptions, CreateWorkflowInput, TerminalParams, TerminalOutcome, completed_with,
  failed_with,
}
use api_proxy.Repository.Writes.{
  new_workflow, new_mapping, finished, update_workflow, create_writes, terminal_writes,
}
use api_proxy.Repository.Commit.{
  Commit, create, begin, mark_unknown, advance, finish, publish, IsValidInput,
}
use api_proxy.Repository.Commit.Reads.{
  create-workflow, begin-workflow, mark-workflow, advance-workflow, finish-workflow,
  publish-workflow, create-mapping, begin-mapping, mark-mapping, advance-mapping, finish-mapping,
  publish-mapping,
}
use api_proxy.Repository.Commit.Guards.{create_guard}

-- The logical operation that an item stands for.
pub record Identity : Type 0 where
  pub request_id : Text
  pub tenant_id : Text
  pub idempotency_key : Text
  pub payload_hash : Text

abbrev pub workflow_identity : Option Item → Option Identity
workflow_identity (some (workflow_item i)) = some (record {
  request_id = i.document.request_id;
  tenant_id = i.document.tenant_id;
  idempotency_key = i.document.idempotency_key;
  payload_hash = i.document.payload_hash;
})
workflow_identity _ = none

abbrev pub mapping_identity : Option Item → Option Identity
mapping_identity (some (idempotency_item m)) = some (record {
  request_id = m.request_id;
  tenant_id = m.tenant_id;
  idempotency_key = m.idempotency_key;
  payload_hash = m.payload_hash;
})
mapping_identity _ = none

abbrev pub input_identity : CreateWorkflowInput → Identity
input_identity input = record {
  request_id = input.request_id;
  tenant_id = input.tenant_id;
  idempotency_key = input.idempotency_key;
  payload_hash = input.payload_hash;
}

-- Mappings point at workflows, and workflows are found by their mappings.
pub record Linked (t : Table) : Type 0 where
  pub mapped :
      (c k : Text) (d : Identity)
      → mapping_identity (t (idempotency_key_item c k)) ≡ some d
      → workflow_identity (t (workflow_key d.request_id)) ≡ some d
  pub found :
      (r : Text) (d : Identity)
      → workflow_identity (t (workflow_key r)) ≡ some d
      → mapping_identity (t (idempotency_key_item d.tenant_id d.idempotency_key)) ≡ some d
  pub placed :
      (c k : Text) (d : Identity)
      → mapping_identity (t (idempotency_key_item c k)) ≡ some d
      → (same_key (idempotency_key_item d.tenant_id d.idempotency_key) (idempotency_key_item c k)
          ≡ true)
        × (tenant_id_schema d.tenant_id ≡ true)

-- What all transitions but a creation leave alone.
pub record Kept (t u : Table) : Type 0 where
  pub workflows :
      (r : Text) → workflow_identity (u (workflow_key r)) ≡ workflow_identity (t (workflow_key r))
  pub mappings : (c k : Text) → u (idempotency_key_item c k) ≡ t (idempotency_key_item c k)

Linked-Kept : (t u : Table) → Kept t u → Linked t → Linked u
Linked-Kept t u k l = record {
  mapped = λ c n d h.
      k.workflows d.request_id ∙ l.mapped c n d (sym (ap mapping_identity (k.mappings c n)) ∙ h);
  found = λ r d h.
      ap mapping_identity (k.mappings d.tenant_id d.idempotency_key)
      ∙ l.found r d (sym (k.workflows r) ∙ h);
  placed = λ c n d h. l.placed c n d (sym (ap mapping_identity (k.mappings c n)) ∙ h);
}

module _ (platform : Platform) (options : RepositoryOptions) where
  new_workflow-identity :
      (input : CreateWorkflowInput) (now : ℕ)
      → workflow_identity (some (workflow_item (new_workflow platform options input now)))
        ≡ some (input_identity input)
  unfolding new_workflow
  new_workflow-identity input now = refl

  new_mapping-identity :
      (input : CreateWorkflowInput) (now : ℕ)
      → mapping_identity (some (idempotency_item (new_mapping platform options input now)))
        ≡ some (input_identity input)
  unfolding new_mapping
  new_mapping-identity input now = refl

  finished-identity :
      (o : TerminalOutcome) (now : ℕ) (old : Option Item)
      → workflow_identity (update_workflow (finished platform options o now) old)
        ≡ workflow_identity old
  unfolding finished
  finished-identity (completed_with v) now old = ground arith
  finished-identity (failed_with v) now old = ground arith

  module _ (t u : Table) where
    finish-Kept :
        (p : TerminalParams) (now : ℕ)
        → u ≡ perform_all (terminal_writes platform options p now) t
        → Kept t u
    finish-Kept p now e = record {
      workflows = λ r. ground (
        arith,
        ap (λ (f : Table). f (workflow_key r)) e,
        finish-workflow platform options t p now r,
        finished-identity p.outcome now (t (workflow_key p.request_id)),
        text_eq→eq p.request_id r,
      );
      mappings = λ c k.
          ap (λ (f : Table). f (idempotency_key_item c k)) e
          ∙ finish-mapping platform options t p now c k;
    }

    create-Linked :
        (input : CreateWorkflowInput) (now : ℕ)
        → IsValidInput input
        → AllHold (create_writes platform options input now) t
        → u ≡ perform_all (create_writes platform options input now) t
        → Linked t
        → Linked u
    create-Linked input now v a e l = record {
      mapped = λ c k d h. ground (
        arith,
        ap (λ (f : Table). f (idempotency_key_item c k)) e,
        ap (λ (f : Table). f (workflow_key d.request_id)) e,
        create-mapping platform options t input now c k,
        create-workflow platform options t input now d.request_id,
        new_workflow-identity input now,
        new_mapping-identity input now,
        create_guard platform options t input now a,
        text_eq→eq input.request_id d.request_id,
        text_eq_refl input.request_id,
        l.mapped c k d,
      );
      found = λ r d h. ground (
        arith,
        ap (λ (f : Table). f (idempotency_key_item d.tenant_id d.idempotency_key)) e,
        ap (λ (f : Table). f (workflow_key r)) e,
        create-mapping platform options t input now d.tenant_id d.idempotency_key,
        create-workflow platform options t input now r,
        new_workflow-identity input now,
        new_mapping-identity input now,
        create_guard platform options t input now a,
        same_key→eq (idempotency_key_item input.tenant_id input.idempotency_key)
            (idempotency_key_item d.tenant_id d.idempotency_key),
        same_key_refl (idempotency_key_item input.tenant_id input.idempotency_key),
        l.found r d,
      );
      placed = λ c k d h. ground (
        arith,
        ap (λ (f : Table). f (idempotency_key_item c k)) e,
        create-mapping platform options t input now c k,
        new_mapping-identity input now,
        l.placed c k d,
      );
    }

    -- Every transition but a creation leaves identities and mappings alone.
    pub Commit-Kept :
        Commit platform options t u
        → Kept t u
          ⊎ ((input : CreateWorkflowInput) × (now : ℕ) × IsValidInput input
              × AllHold (create_writes platform options input now) t
              × (u ≡ perform_all (create_writes platform options input now) t))
    Commit-Kept (create input now v a e) = inr (input, now, v, a, e)
    Commit-Kept (begin q s ref now a e) = inl (record {
      workflows = λ r. ap workflow_identity (
          ap (λ (f : Table). f (workflow_key r)) e
          ∙ begin-workflow platform options t q s ref now r);
      mappings = λ c k.
          ap (λ (f : Table). f (idempotency_key_item c k)) e
          ∙ begin-mapping platform options t q s ref now c k;
    })
    Commit-Kept (mark_unknown q s now a e) = inl (record {
      workflows = λ r.
          ap workflow_identity
            (ap (λ (f : Table). f (workflow_key r)) e ∙ mark-workflow platform options t q s now r);
      mappings = λ c k.
          ap (λ (f : Table). f (idempotency_key_item c k)) e
          ∙ mark-mapping platform options t q s now c k;
    })
    Commit-Kept (advance p now v x a e) = inl (record {
      workflows = λ r.
          ap workflow_identity (
            ap (λ (f : Table). f (workflow_key r)) e ∙ advance-workflow platform options t p now r);
      mappings = λ c k.
          ap (λ (f : Table). f (idempotency_key_item c k)) e
          ∙ advance-mapping platform options t p now c k;
    })
    Commit-Kept (finish p now v a e) = inl (finish-Kept p now e)
    Commit-Kept (publish q f now a e) = inl (record {
      workflows = λ r. ap workflow_identity (
          ap (λ (g : Table). g (workflow_key r)) e ∙ publish-workflow platform options t q f now r);
      mappings = λ c k.
          ap (λ (g : Table). g (idempotency_key_item c k)) e
          ∙ publish-mapping platform options t q f now c k;
    })

    -- Each transition keeps mappings and workflows together.
    pub Commit-Linked : Linked t → Commit platform options t u → Linked u
    Commit-Linked l c = elim (Commit-Kept c) [
      | inl k ↦ Linked-Kept t u k l
      | inr (input, now, v, a, e) ↦ create-Linked input now v a e l
    ]
