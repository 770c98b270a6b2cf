-- ===== src/Repository/Outcomes/Decode.antt =====
-- The outcomes of decoding in items.ts.
use api_proxy.Base.{◌≡◌, Bool, true, false, Text, Option, none, some, ok, err, arith}
use api_proxy.Contracts.Errors.{Thrown}
use api_proxy.Contracts.Ids.{Platform}
use api_proxy.Contracts.Workflow.{WorkflowRecord, workflow_record_schema}
use api_proxy.Persistence.Items.{
  Item, workflow_of, decode_with, decode_failure, decode_workflow, IdempotencyItem,
  decode_idempotency, mapping_of,
}
use api_proxy.Persistence.Failures.{condition_failed_at}

decode_with_ok :
    {A : Type 0} (schema : A → Bool) (o : Option A) (m : Text) (a : A)
    → decode_with schema o m ≡ ok a
    → (o ≡ some a) × (schema a ≡ true)
unfolding decode_with
decode_with_ok schema none m a h = cc
decode_with_ok schema (some b) m a h = ground arith

decode_with_err :
    {A : Type 0} (schema : A → Bool) (o : Option A) (m : Text) (e : Thrown)
    → decode_with schema o m ≡ err e
    → e ≡ decode_failure m
unfolding decode_with
decode_with_err schema none m e h = ground arith
decode_with_err schema (some b) m e h = ground arith

module _ (platform : Platform) where
  pub decode_workflow_ok :
      (raw : Item) (w : WorkflowRecord)
      → decode_workflow platform raw ≡ ok w
      → (workflow_of raw ≡ some w) × (workflow_record_schema platform w ≡ true)
  unfolding decode_workflow
  decode_workflow_ok raw w h = decode_with_ok (workflow_record_schema platform) _ _ w h

  pub decode_idempotency_ok :
      (raw : Item) (m : IdempotencyItem)
      → decode_idempotency platform raw ≡ ok m
      → mapping_of raw ≡ some m
  unfolding decode_idempotency
  decode_idempotency_ok raw m h = (decode_with_ok _ _ _ m h).0

  -- A decode failure is no failed condition of a transaction.
  pub decode_workflow_err :
      (raw : Item) (e : Thrown)
      → decode_workflow platform raw ≡ err e
      → condition_failed_at e 0 ≡ false
  unfolding decode_workflow decode_failure condition_failed_at
  decode_workflow_err raw e h =
      ground (arith, decode_with_err (workflow_record_schema platform) (workflow_of raw) _ e h)
