-- ===== src/Repository/Commit.antt =====
-- The atomic transitions of the table: what each write request of workflow-repository.ts does when
-- DynamoDB accepts it. Methods run by any number of tasks interleave as sequences of these.
pub mod Reads
pub mod Guards
pub mod Terminal
pub mod Present
pub mod Shape
pub mod Links
use api_proxy.Base.{ℕ, Text, Option, ◌≡◌, true, is_some}
use api_proxy.Persistence.Keys.{step_key}
use api_proxy.Contracts.Ids.{Platform, tenant_id_schema, idempotency_key_schema}
use api_proxy.Contracts.Workflow.{StepId}
use api_proxy.Persistence.Dynamo.{Table, holds, perform, perform_all, AllHold}
use api_proxy.Repository.{
  RepositoryOptions, CreateWorkflowInput, AdvanceParams, TerminalParams, TerminalOutcome,
  completed_with, failed_with,
}
use api_proxy.Repository.Writes.{
  create_writes, begin_write, mark_unknown_write, advance_writes, terminal_writes, publish_write,
}

-- The API passes only identities that its schemas accept.
abbrev pub IsValidInput : CreateWorkflowInput → Type 0
IsValidInput input =
    (tenant_id_schema input.tenant_id ≡ true)
    × (idempotency_key_schema input.idempotency_key ≡ true)

-- The pipeline has one advance, from ENRICH to FINALIZE, of a step that was claimed before.
abbrev pub IsPipelineAdvance : AdvanceParams → Type 0
IsPipelineAdvance p = (p.step_id ≡ StepId.enrich) × (p.next_step ≡ StepId.finalize)

-- A workflow is completed by FINALIZE only; each step may fail it.
abbrev pub CompletesAt : TerminalOutcome → StepId → Type 0
CompletesAt (completed_with result) s = s ≡ StepId.finalize
CompletesAt (failed_with error) s = Unit {0}

module _ (platform : Platform) (options : RepositoryOptions) where
  pub data Commit (t u : Table) : Type 0 where
    create :
        (input : CreateWorkflowInput) (now : ℕ)
        → IsValidInput input
        → AllHold (create_writes platform options input now) t
        → u ≡ perform_all (create_writes platform options input now) t
        → Commit t u
    begin :
        (r : Text) (s : StepId) (ref : Option Text) (now : ℕ)
        → holds t (begin_write platform options r s ref now) ≡ true
        → u ≡ perform (begin_write platform options r s ref now) t
        → Commit t u
    mark_unknown :
        (r : Text) (s : StepId) (now : ℕ)
        → holds t (mark_unknown_write platform options r s now) ≡ true
        → u ≡ perform (mark_unknown_write platform options r s now) t
        → Commit t u
    advance :
        (p : AdvanceParams) (now : ℕ)
        → IsPipelineAdvance p
        → is_some (t (step_key p.request_id p.step_id)) ≡ true
        → AllHold (advance_writes platform options p now) t
        → u ≡ perform_all (advance_writes platform options p now) t
        → Commit t u
    finish :
        (p : TerminalParams) (now : ℕ)
        → CompletesAt p.outcome p.step_id
        → AllHold (terminal_writes platform options p now) t
        → u ≡ perform_all (terminal_writes platform options p now) t
        → Commit t u
    publish :
        (r e : Text) (now : ℕ)
        → holds t (publish_write platform options r e now) ≡ true
        → u ≡ perform (publish_write platform options r e now) t
        → Commit t u

  -- Any number of transitions, by whomever.
  pub data Evolves (t : Table) : Table → Type 0 where
    here : Evolves t t
    next : {u v : Table} → Evolves t u → Commit u v → Evolves t v

  pub Evolves-trans : {t u v : Table} → Evolves t u → Evolves u v → Evolves t v
  Evolves-trans a here = a
  Evolves-trans a (next b c) = next (Evolves-trans a b) c

  -- A property that each transition keeps holds after any number of them.
  pub Evolves-induction :
      (P : Table → Type 0)
      → ((u v : Table) → P u → Commit u v → P v)
      → {t u : Table} → Evolves t u
      → P t
      → P u
  Evolves-induction P step here p = p
  Evolves-induction P step (next {u} {v} a c) p = step u v (Evolves-induction P step a p) c
