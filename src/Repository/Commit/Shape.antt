-- ===== src/Repository/Commit/Shape.antt =====
-- The shape of the stored items: a workflow's attributes go with its status, a step item has
-- what its schema requires, and an event is in the pending index exactly until it is published.
pub mod Workflows
pub mod Steps
pub mod Events
use api_proxy.Base.{
  ℕ, ◌≡◌, refl, Bool, true, false, not, Text, Option, none, some, is_some, if◌then◌else◌,
}
use api_proxy.Contracts.Workflow.{StepId, WorkflowStatus}
use api_proxy.Persistence.Items.{
  Item, WorkflowItem, workflow_item, step_item, outbox_item, idempotency_item,
}

-- The number of state mutations, the outcome and the index entry that each status comes with.
abbrev pub StatusShape : WorkflowStatus → WorkflowItem → Type 0
StatusShape WorkflowStatus.processing i =
    (i.document.state_version ≡ 0)
    × (i.document.result ≡ none)
    × (i.document.error ≡ none)
    × (is_some i.gsi2 ≡ true)
StatusShape WorkflowStatus.completed i =
    (i.document.state_version ≡ 1)
    × (is_some i.document.result ≡ true)
    × (i.document.error ≡ none)
    × (i.gsi2 ≡ none)
StatusShape WorkflowStatus.failed i =
    (i.document.state_version ≡ 1)
    × (i.document.result ≡ none)
    × (is_some i.document.error ≡ true)
    × (i.gsi2 ≡ none)

abbrev pub WorkflowShape : Text → Option Item → Type 0
WorkflowShape r none = Unit {0}
WorkflowShape r (some (workflow_item i)) =
    (i.document.request_id ≡ r) × StatusShape i.document.status i
WorkflowShape r (some (step_item i)) = ⊥
WorkflowShape r (some (outbox_item i)) = ⊥
WorkflowShape r (some (idempotency_item i)) = ⊥

abbrev pub StepShape : Text → StepId → Option Item → Type 0
StepShape r s none = Unit {0}
StepShape r s (some (step_item i)) =
    (i.request_id ≡ some r)
    × (i.step_id ≡ some s)
    × (is_some i.status ≡ true)
    × (is_some i.attempt ≡ true)
    × (is_some i.created_at ≡ true)
    × (is_some i.updated_at ≡ true)
StepShape r s (some (workflow_item i)) = ⊥
StepShape r s (some (outbox_item i)) = ⊥
StepShape r s (some (idempotency_item i)) = ⊥

abbrev pub OutboxShape : Text → Text → Option Item → Type 0
OutboxShape r e none = Unit {0}
OutboxShape r e (some (outbox_item i)) =
    (i.event.request_id ≡ r)
    × (i.event.event_id ≡ e)
    × (i.event.message.message_id ≡ e)
    × (is_some i.gsi1 ≡ not (is_some i.event.published_at))
OutboxShape r e (some (workflow_item i)) = ⊥
OutboxShape r e (some (step_item i)) = ⊥
OutboxShape r e (some (idempotency_item i)) = ⊥

pub if_intro {ℓ κ} :
    {A : Type ℓ} (P : A → Type κ) (b : Bool) (x y : A)
    → (b ≡ true → P x)
    → P y
    → P (if b then x else y)
if_intro P true x y p q = p refl
if_intro P false x y p q = q
