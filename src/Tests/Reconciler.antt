-- ===== src/Tests/Reconciler.antt =====
-- A sweep over a table in memory, whose first index holds the event of one workflow.
use api_proxy.Base.{
  ℕ, zero, suc, ◌≡◌, refl, subst, ◌≤◌, inl, inr, Bool, true, false, ◌&&◌, Bool-cases, Text, text_eq,
  text_eq→eq, text_lt, decimal, Option, none, some, List, [], ◌∷◌, All, take, length, Result, ok,
  try_catch, if◌then◌else◌, arith,
}
use api_proxy.Base.Triple.{Ends}
use api_proxy.Contracts.Errors.{Thrown}
use api_proxy.Contracts.Workflow.{StepId}
use api_proxy.Persistence.Keys.{
  same_key, pending_outbox_index_keys, shard_of, chrono_prefix, idempotency_key_item, pad_start,
  pending_outbox_shard_keys, processing_shard_keys, shard_keys, shard_loop, workflow_key,
  processing_index_keys, TableKey, IndexKeys, outbox_key,
}
use api_proxy.Persistence.Items.{
  decode_outbox, decode_with, ttl_seconds_from_now, Item, outbox_item, workflow_item, step_item,
  idempotency_item,
}
use api_proxy.Persistence.Dynamo.{Table}
use api_proxy.Repository.Commit.{here}
use api_proxy.Repository.Writes.{
  create_writes, new_event, new_mapping, new_workflow, publish_write, published, event_id_for,
}
use api_proxy.Repository.Sweep.{
  decode_page, list_pending_outbox, list_stale_processing, pending_from, pending_page, stale_from,
  stale_page, stale_refs, Indexes, IsBefore, MatchesPending,
}
use api_proxy.Outbox.Delivery.{Keeps}
use api_proxy.Reconciler.Handler.{republish, republish_all, ReconcilerOptions, reconcile}
use api_proxy.Reconciler.Sweep.{IsSwept, IsHalted, reconcile-IsSwept}
use api_proxy.Idempotency.{derive_event_id, step_name}
use api_proxy.Contracts.Messages.{outbox_event_schema, payload_schema, workflow_message_schema}
use api_proxy.Contracts.Ids.{hex64_schema, is_hex_char, tenant_id_schema, is_tenant_char}
use api_proxy.Messaging.Publisher.{publish, publish_to, queue_url}
use api_proxy.Repository.Methods.{mark_outbox_published}
use api_proxy.Tests.Memory.{update, digest, checksum, platform, options}
use api_proxy.Tests.Repository.{request}
use api_proxy.Tests.Outbox.{office, stopped_clock, post_office, urls}
use api_proxy.Tests.Pipeline.{ready}

abbrev event_key : TableKey
event_key = outbox_key request (event_id_for platform options request StepId.enrich)

abbrev is_before : Text → Text → Option IndexKeys → Bool
is_before shard boundary none = false
is_before shard boundary (some k) = text_eq k.index_pk shard && text_lt k.index_sk boundary

abbrev matches : Text → Text → Item → Bool
matches shard boundary (outbox_item i) = is_before shard boundary i.gsi1
matches shard boundary (workflow_item i) = false
matches shard boundary (step_item i) = false
matches shard boundary (idempotency_item i) = false

is_before-IsBefore :
    (shard boundary : Text) (o : Option IndexKeys)
    → is_before shard boundary o ≡ true
    → IsBefore shard boundary o
is_before-IsBefore shard boundary none h = ground arith
is_before-IsBefore shard boundary (some k) h =
    (text_eq→eq k.index_pk shard (ground arith), ground arith)

matches-MatchesPending :
    (shard boundary : Text) (item : Item)
    → matches shard boundary item ≡ true
    → MatchesPending shard boundary item
matches-MatchesPending shard boundary (outbox_item i) h = is_before-IsBefore shard boundary i.gsi1 h
matches-MatchesPending shard boundary (workflow_item i) h = ground arith
matches-MatchesPending shard boundary (step_item i) h = ground arith
matches-MatchesPending shard boundary (idempotency_item i) h = ground arith

abbrev page : Text → Text → Option Item → List Item
page shard boundary none = []
page shard boundary (some item) = if matches shard boundary item then item ∷ [] else []

All-take : {A : Type 0} (P : A → Type 0) (n : ℕ) (xs : List A) → All P xs → All P (take n xs)
All-take P zero xs p = tt
All-take P (suc n) [] p = tt
All-take P (suc n) (x ∷ xs) p = (p.0, All-take P n xs p.1)

page-Held :
    (shard boundary : Text) (t : Table) (o : Option Item)
    → t event_key ≡ o
    → All (λ i. (t event_key ≡ some i) × MatchesPending shard boundary i) (page shard boundary o)
page-Held shard boundary t none h = tt
page-Held shard boundary t (some item) h = elim (Bool-cases (matches shard boundary item)) [
  | inl m ↦ rw m ((h, matches-MatchesPending shard boundary item m), tt)
  | inr m ↦ rw m tt
]

length-take_within : {A : Type 0} (n : ℕ) (xs : List A) → length (take n xs) ≤ n
length-take_within zero xs = omega arith
length-take_within (suc n) [] = omega arith
length-take_within (suc n) (x ∷ xs) = let ih = length-take_within n xs in omega arith

-- What was returned has what the value has.
returned :
    {A : Type 0} (P : A → Type 0) (x y : A)
    → P x
    → (let a : Result Thrown A = ok x in a ≡ ok y)
    → P y
returned P x y p h = let e : x ≡ y = ground arith in subst P e p

abbrev indexes : Indexes office
indexes = record {
  query_pending = λ shard boundary n w. (ok (take n (page shard boundary (w.0 event_key))), w);
  query_processing = λ shard boundary n w. (ok [], w);
  query_pending_lem = λ shard boundary n w. here;
  query_processing_lem = λ shard boundary n w. here;
  query_pending_within = λ shard boundary n w items h.
      returned (λ l. length l ≤ n) _ items
        (length-take_within n (page shard boundary (w.0 event_key))) h;
  query_processing_within =
      λ shard boundary n w entries h. returned (λ l. length l ≤ n) [] entries (omega arith) h;
  Held = λ w i. w.0 event_key ≡ some i;
  query_pending-Held = λ shard boundary n w items h.
      returned (All (λ i. (w.0 event_key ≡ some i) × MatchesPending shard boundary i)) _ items
        (All-take _ n (page shard boundary (w.0 event_key))
          (page-Held shard boundary w.0 (w.0 event_key) refl))
        h;
  kept_by_query = λ shard boundary n w i h. h;
}

abbrev settings : ReconcilerOptions
settings = record { outbox_stale_after_ms = 500; page_size = 25 }

kept :
    (shard boundary : Text) (n : ℕ)
    → Keeps office stopped_clock post_office urls (indexes.query_processing shard boundary n)
kept shard boundary n = record { at = λ w url m h. h }

reconcile-IsSwept_example :
    let a = reconcile office stopped_clock post_office urls indexes settings (ready, []) in
    Ends
      (IsSwept office stopped_clock post_office urls indexes settings kept (ready, []))
      (IsHalted office stopped_clock post_office urls indexes settings kept (ready, []))
      a.0
      a.1
reconcile-IsSwept_example =
    reconcile-IsSwept office stopped_clock post_office urls indexes settings kept (ready, [])

one_republished :
    (reconcile office stopped_clock post_office urls indexes settings (ready, [])).0
    ≡ ok (record { republished = 1; publish_failures = 0; stale_workflows = 0 })
unfolding reconcile update try_catch create_writes same_key text_eq outbox_key derive_event_id
    digest step_name decimal new_event pending_outbox_index_keys shard_of text_lt
    outbox_event_schema hex64_schema is_hex_char tenant_id_schema is_tenant_char payload_schema
    workflow_message_schema publish publish_to queue_url decode_outbox decode_with chrono_prefix
    idempotency_key_item pad_start pending_outbox_shard_keys processing_shard_keys shard_keys
    shard_loop workflow_key republish republish_all mark_outbox_published decode_page
    list_pending_outbox list_stale_processing pending_from pending_page stale_from stale_page
    stale_refs new_mapping new_workflow publish_write published checksum ttl_seconds_from_now
    processing_index_keys
one_republished = refl
