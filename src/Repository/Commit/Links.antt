-- ===== src/Repository/Commit/Links.antt =====
-- What the items of one request say of one another.
pub mod Finalize
pub mod Events
pub mod Mapping
use api_proxy.Base.{Bool, true, false, Option, none, some}
use api_proxy.Contracts.Workflow.{WorkflowStatus}
use api_proxy.Persistence.Items.{Item, workflow_item}

abbrev pub is_completed : Option Item → Bool
is_completed (some (workflow_item i)) = elim i.document.status [
  | WorkflowStatus.completed ↦ true
  | WorkflowStatus.processing ↦ false
  | WorkflowStatus.failed ↦ false
]
is_completed _ = false
