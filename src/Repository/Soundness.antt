-- ===== src/Repository/Soundness.antt =====
-- The invariant of the table that workflow-repository.ts writes.
use mathlib.Core.Path.{ap₂}
use api_proxy.Base.{
  ◌≡◌, sym, ap, ◌∙◌, inl, inr, true, Text, text_eq→eq, text_eq_refl, Option, none, some, is_some,
  arith,
}
use api_proxy.Contracts.Ids.{Platform}
use api_proxy.Contracts.Workflow.{StepId}
use api_proxy.Persistence.Keys.{workflow_key, step_key, outbox_key, idempotency_key_item}
use api_proxy.Persistence.Items.{Item, workflow_item, step_item, outbox_item, idempotency_item}
use api_proxy.Persistence.Dynamo.{Table}
use api_proxy.Repository.{RepositoryOptions}
use api_proxy.Repository.Writes.{event_id_for}
use api_proxy.Repository.Commit.{Commit, Evolves, Evolves-induction}
use api_proxy.Repository.Commit.Reads.{create-workflow, create-outbox}
use api_proxy.Repository.Commit.Shape.{WorkflowShape, StepShape, OutboxShape}
use api_proxy.Repository.Commit.Shape.Workflows.{Commit-WorkflowShape}
use api_proxy.Repository.Commit.Shape.Steps.{Commit-StepShape}
use api_proxy.Repository.Commit.Shape.Events.{Commit-OutboxShape}
use api_proxy.Repository.Commit.Links.Finalize.{FinalizeLink, Commit-finalize}
use api_proxy.Repository.Commit.Links.Events.{EnrichLink, Commit-enrich, Commit-stored}
use api_proxy.Repository.Commit.Links.Mapping.{
  Linked, Identity, workflow_identity, mapping_identity, Commit-Linked, Commit-Kept,
}

abbrev pub empty_table : Table
empty_table k = none

module _ (platform : Platform) (options : RepositoryOptions) where
  -- A workflow that exists has left its first event in the outbox.
  abbrev pub StartLink : Table → Text → Type 0
  StartLink t r =
      is_some (workflow_identity (t (workflow_key r))) ≡ true
      → is_some (t (outbox_key r (event_id_for platform options r StepId.enrich))) ≡ true

  pub record IsSound (t : Table) : Type 0 where
    pub workflows : (r : Text) → WorkflowShape r (t (workflow_key r))
    pub steps : (r : Text) (s : StepId) → StepShape r s (t (step_key r s))
    pub events : (r e : Text) → OutboxShape r e (t (outbox_key r e))
    pub starts : (r : Text) → StartLink t r
    pub enriched : (r : Text) → EnrichLink platform options t r
    pub finalized : (r : Text) → FinalizeLink platform options t r
    pub linked : Linked t

  kept_start :
      (t u : Table) (r : Text)
      → Commit platform options t u
      → workflow_identity (u (workflow_key r)) ≡ workflow_identity (t (workflow_key r))
      → StartLink t r
      → StartLink u r
  kept_start t u r c k w h = Commit-stored platform options t u r _ (w (sym (ap is_some k) ∙ h)) c

  IsSound-empty : IsSound empty_table
  IsSound-empty = record {
    workflows = λ r. tt;
    steps = λ r s. tt;
    events = λ r e. tt;
    starts = λ r h. cc;
    enriched = λ r h. cc;
    finalized = λ r h. cc;
    linked = record { mapped = λ c k d h. cc; found = λ r d h. cc; placed = λ c k d h. cc };
  }

  Commit-starts :
      (t u : Table) (r : Text) → Commit platform options t u → StartLink t r → StartLink u r
  Commit-starts t u r c w = elim (Commit-Kept platform options t u c) [
    | inl k ↦ kept_start t u r c (k.workflows r) w
    | inr (input, now, v, a, e) ↦ λ h. ground (
      arith,
      ap (λ (f : Table). f (workflow_key r)) e,
      ap (λ (f : Table). f (outbox_key r (event_id_for platform options r StepId.enrich))) e,
      create-workflow platform options t input now r,
      create-outbox platform options t input now r (event_id_for platform options r StepId.enrich),
      text_eq→eq input.request_id r,
      text_eq_refl (event_id_for platform options r StepId.enrich),
    )
  ]

  pub Commit-IsSound : (t u : Table) → IsSound t → Commit platform options t u → IsSound u
  Commit-IsSound t u v c = record {
    workflows = Commit-WorkflowShape platform options t u v.workflows c;
    steps = Commit-StepShape platform options t u v.steps c;
    events = Commit-OutboxShape platform options t u v.events c;
    starts = λ r. Commit-starts t u r c (v.starts r);
    enriched = λ r. Commit-enrich platform options t u r (v.enriched r) c;
    finalized = λ r. Commit-finalize platform options t u r (v.finalized r) c;
    linked = Commit-Linked platform options t u v.linked c;
  }

  pub Evolves-IsSound : (t u : Table) → IsSound t → Evolves platform options t u → IsSound u
  Evolves-IsSound t u v ev = Evolves-induction platform options IsSound Commit-IsSound ev v

  -- Whatever transitions any number of tasks make from an empty table: each workflow, step and
  -- event item has its shape; a workflow has its first event in the outbox; a finished ENRICH has
  -- left the event for FINALIZE; a finished FINALIZE means COMPLETED; and mappings and workflows
  -- point at one another.
  pub reachable_tables : (t : Table) → Evolves platform options empty_table t → IsSound t
  reachable_tables t = Evolves-IsSound empty_table t IsSound-empty

  identity_request :
      (r : Text) (o : Option Item) (d : Identity)
      → WorkflowShape r o
      → workflow_identity o ≡ some d
      → d.request_id ≡ r
  identity_request r (some (workflow_item i)) d w h = ground arith
  identity_request r (some (step_item i)) d w h = elim w [ ]
  identity_request r (some (outbox_item i)) d w h = elim w [ ]
  identity_request r (some (idempotency_item i)) d w h = elim w [ ]
  identity_request r none d w h = cc

  -- In a table reached from an empty one, two workflows of one tenant under one idempotency key
  -- are the same workflow, with the same payload hash.
  pub one_workflow_per_key :
      (t : Table) (r q : Text) (d e : Identity)
      → Evolves platform options empty_table t
      → workflow_identity (t (workflow_key r)) ≡ some d
      → workflow_identity (t (workflow_key q)) ≡ some e
      → d.tenant_id ≡ e.tenant_id
      → d.idempotency_key ≡ e.idempotency_key
      → (r ≡ q) × (d.payload_hash ≡ e.payload_hash)
  one_workflow_per_key t r q d e ev h k c n =
      let v = reachable_tables t ev in
      let p : some d ≡ some e =
        sym (v.linked.found r d h)
        ∙ ap₂ (λ x y. mapping_identity (t (idempotency_key_item x y))) c n
        ∙ v.linked.found q e k in
      let a = identity_request r (t (workflow_key r)) d (v.workflows r) h in
      let b = identity_request q (t (workflow_key q)) e (v.workflows q) k in (cc, cc)
