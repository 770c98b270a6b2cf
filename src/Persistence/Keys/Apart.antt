-- ===== src/Persistence/Keys/Apart.antt =====
-- When two keys of keys.ts are the same key.
use api_proxy.Base.{◌≡◌, Bool, true, false, ◌&&◌, Text, text_eq, text_eq_refl, text_eq→eq, arith}
use api_proxy.Contracts.Workflow.{StepId}
use api_proxy.Idempotency.{step_name}
use api_proxy.Persistence.Keys.{
  TableKey, same_key, workflow_key, step_key, outbox_key, idempotency_key_item,
}

pub same_key_refl : (a : TableKey) → same_key a a ≡ true
unfolding same_key
same_key_refl a = ground (arith, text_eq_refl a.pk, text_eq_refl a.sk)

pub same_key→eq : (a b : TableKey) → same_key a b ≡ true → a ≡ b
unfolding same_key
same_key→eq a b h = ground (arith, text_eq→eq a.pk b.pk, text_eq→eq a.sk b.sk)

abbrev pub same_step : StepId → StepId → Bool
same_step StepId.enrich StepId.enrich = true
same_step StepId.finalize StepId.finalize = true
same_step StepId.enrich StepId.finalize = false
same_step StepId.finalize StepId.enrich = false

pub same_step→eq : (z s : StepId) → same_step z s ≡ true → z ≡ s
same_step→eq StepId.enrich s h = ground arith
same_step→eq StepId.finalize s h = ground arith

module _ (r r' : Text) where
  pub workflow-workflow : same_key (workflow_key r) (workflow_key r') ≡ text_eq r r'
  unfolding same_key workflow_key text_eq
  workflow-workflow = ground (arith)

  pub workflow-step : (s : StepId) → same_key (workflow_key r) (step_key r' s) ≡ false
  unfolding same_key workflow_key step_key step_name text_eq
  workflow-step s = ground arith

  pub step-workflow : (s : StepId) → same_key (step_key r s) (workflow_key r') ≡ false
  unfolding same_key workflow_key step_key step_name text_eq
  step-workflow s = ground arith

  pub step-step :
      (s s' : StepId) → same_key (step_key r s) (step_key r' s') ≡ (text_eq r r' && same_step s s')
  unfolding same_key step_key step_name text_eq
  step-step StepId.enrich s' = ground arith
  step-step StepId.finalize s' = ground arith

  pub outbox-outbox :
      (e e' : Text) → same_key (outbox_key r e) (outbox_key r' e') ≡ (text_eq r r' && text_eq e e')
  unfolding same_key outbox_key text_eq
  outbox-outbox e e' = ground arith

  pub workflow-outbox : (e : Text) → same_key (workflow_key r) (outbox_key r' e) ≡ false
  unfolding same_key workflow_key outbox_key text_eq
  workflow-outbox e = ground arith

  pub outbox-workflow : (e : Text) → same_key (outbox_key r e) (workflow_key r') ≡ false
  unfolding same_key workflow_key outbox_key text_eq
  outbox-workflow e = ground arith

  pub step-outbox : (s : StepId) (e : Text) → same_key (step_key r s) (outbox_key r' e) ≡ false
  unfolding same_key step_key step_name outbox_key text_eq
  step-outbox s e = ground arith

  pub outbox-step : (s : StepId) (e : Text) → same_key (outbox_key r e) (step_key r' s) ≡ false
  unfolding same_key step_key step_name outbox_key text_eq
  outbox-step s e = ground arith

  pub idempotency-workflow :
      (t : Text) → same_key (idempotency_key_item t r) (workflow_key r') ≡ false
  unfolding same_key workflow_key idempotency_key_item text_eq
  idempotency-workflow t = ground arith

  pub workflow-idempotency :
      (t : Text) → same_key (workflow_key r) (idempotency_key_item t r') ≡ false
  unfolding same_key workflow_key idempotency_key_item text_eq
  workflow-idempotency t = ground arith

  pub idempotency-step :
      (t : Text) (s : StepId) → same_key (idempotency_key_item t r) (step_key r' s) ≡ false
  unfolding same_key step_key step_name idempotency_key_item text_eq
  idempotency-step t s = ground arith

  pub step-idempotency :
      (t : Text) (s : StepId) → same_key (step_key r s) (idempotency_key_item t r') ≡ false
  unfolding same_key step_key step_name idempotency_key_item text_eq
  step-idempotency t s = ground arith

  pub idempotency-outbox :
      (t e : Text) → same_key (idempotency_key_item t r) (outbox_key r' e) ≡ false
  unfolding same_key outbox_key idempotency_key_item text_eq
  idempotency-outbox t e = ground arith

  pub outbox-idempotency :
      (t e : Text) → same_key (outbox_key r e) (idempotency_key_item t r') ≡ false
  unfolding same_key outbox_key idempotency_key_item text_eq
  outbox-idempotency t e = ground arith

pub ruleset apart = (
  workflow-workflow, workflow-step, step-workflow, step-step, outbox-outbox, workflow-outbox,
  outbox-workflow, step-outbox, outbox-step, idempotency-workflow, workflow-idempotency,
  idempotency-step, step-idempotency, idempotency-outbox, outbox-idempotency,
)
