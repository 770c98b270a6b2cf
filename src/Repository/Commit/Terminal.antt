-- ===== src/Repository/Commit/Terminal.antt =====
-- Workflow items in a terminal status, and mappings, under the transitions.
use api_proxy.Base.{◌≡◌, true, Text, text_eq→eq, some, ap, arith, ◌∙◌}
use api_proxy.Contracts.Ids.{Platform}
use api_proxy.Contracts.Workflow.{is_terminal}
use api_proxy.Persistence.Keys.{workflow_key, idempotency_key_item}
use api_proxy.Persistence.Keys.Apart.{same_key→eq}
use api_proxy.Persistence.Items.{Item, WorkflowItem, workflow_item}
use api_proxy.Persistence.Dynamo.{Table}
use api_proxy.Repository.{RepositoryOptions}
use api_proxy.Repository.Commit.{
  Commit, Evolves, create, begin, mark_unknown, advance, finish, publish, Evolves-induction,
}
use api_proxy.Repository.Commit.Reads.{
  create-workflow, begin-workflow, mark-workflow, advance-workflow, finish-workflow,
  publish-workflow, create-mapping, begin-mapping, mark-mapping, advance-mapping, finish-mapping,
  publish-mapping,
}
use api_proxy.Repository.Commit.Guards.{create_guard, finish_guard}

module _ (platform : Platform) (options : RepositoryOptions) where
  pub Commit-terminal :
      (t u : Table) (r : Text) (i : WorkflowItem)
      → t (workflow_key r) ≡ some (workflow_item i)
      → is_terminal i.document.status ≡ true
      → Commit platform options t u
      → u (workflow_key r) ≡ some (workflow_item i)
  Commit-terminal t u r i h term (create input now v a e) = ground (
    arith,
    ap (λ (f : Table). f (workflow_key r)) e,
    create-workflow platform options t input now r,
    create_guard platform options t input now a,
    text_eq→eq input.request_id r,
  )
  Commit-terminal t u r i h term (begin q s ref now a e) =
      ap (λ (f : Table). f (workflow_key r)) e ∙ begin-workflow platform options t q s ref now r ∙ h
  Commit-terminal t u r i h term (mark_unknown q s now a e) =
      ap (λ (f : Table). f (workflow_key r)) e ∙ mark-workflow platform options t q s now r ∙ h
  Commit-terminal t u r i h term (advance p now v x a e) =
      ap (λ (f : Table). f (workflow_key r)) e ∙ advance-workflow platform options t p now r ∙ h
  Commit-terminal t u r i h term (finish p now v a e) = ground (
    arith,
    ap (λ (f : Table). f (workflow_key r)) e,
    finish-workflow platform options t p now r,
    finish_guard platform options t p now a,
    text_eq→eq p.request_id r,
  )
  Commit-terminal t u r i h term (publish q f now a e) =
      ap (λ (g : Table). g (workflow_key r)) e ∙ publish-workflow platform options t q f now r ∙ h

  -- Once a workflow is COMPLETED or FAILED its item never changes again, whatever any number of
  -- tasks go on to do.
  pub terminal_forever :
      (t u : Table) (r : Text) (i : WorkflowItem)
      → t (workflow_key r) ≡ some (workflow_item i)
      → is_terminal i.document.status ≡ true
      → Evolves platform options t u
      → u (workflow_key r) ≡ some (workflow_item i)
  terminal_forever t u r i h term ev =
      Evolves-induction platform options (λ v. v (workflow_key r) ≡ some (workflow_item i))
        (λ v w p. Commit-terminal v w r i p term) ev h

  Commit-mapping :
      (t u : Table) (c k : Text) (m : Item)
      → t (idempotency_key_item c k) ≡ some m
      → Commit platform options t u
      → u (idempotency_key_item c k) ≡ some m
  Commit-mapping t u c k m h (create input now v a e) = ground (
    arith,
    ap (λ (f : Table). f (idempotency_key_item c k)) e,
    create-mapping platform options t input now c k,
    create_guard platform options t input now a,
    same_key→eq (idempotency_key_item input.tenant_id input.idempotency_key)
        (idempotency_key_item c k),
  )
  Commit-mapping t u c k m h (begin q s ref now a e) =
      ap (λ (f : Table). f (idempotency_key_item c k)) e
      ∙ begin-mapping platform options t q s ref now c k
      ∙ h
  Commit-mapping t u c k m h (mark_unknown q s now a e) =
      ap (λ (f : Table). f (idempotency_key_item c k)) e
      ∙ mark-mapping platform options t q s now c k
      ∙ h
  Commit-mapping t u c k m h (advance p now v x a e) =
      ap (λ (f : Table). f (idempotency_key_item c k)) e
      ∙ advance-mapping platform options t p now c k
      ∙ h
  Commit-mapping t u c k m h (finish p now v a e) =
      ap (λ (f : Table). f (idempotency_key_item c k)) e
      ∙ finish-mapping platform options t p now c k
      ∙ h
  Commit-mapping t u c k m h (publish q f now a e) =
      ap (λ (g : Table). g (idempotency_key_item c k)) e
      ∙ publish-mapping platform options t q f now c k
      ∙ h

  -- An idempotency mapping, once made, points at the same workflow for good.
  pub mapping_forever :
      (t u : Table) (c k : Text) (m : Item)
      → t (idempotency_key_item c k) ≡ some m
      → Evolves platform options t u
      → u (idempotency_key_item c k) ≡ some m
  mapping_forever t u c k m h ev =
      Evolves-induction platform options (λ v. v (idempotency_key_item c k) ≡ some m)
        (λ v w p. Commit-mapping v w c k m p) ev h
