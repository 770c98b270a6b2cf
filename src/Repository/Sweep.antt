-- ===== src/Repository/Sweep.antt =====
-- workflow-repository.ts: `listPendingOutbox` and `listStaleProcessing`, the queries on the two
-- sparse indexes. The indexes are DynamoDB's, so that they are a parameter.
pub mod Listed
pub mod Stale
use api_proxy.Base.{
  ℕ, ◌-◌, ◌≡◌, ◌≤◌, Bool, true, false, Text, codes, text_lt, Option, none, some, List, [], ◌∷◌,
  ◌++◌, All, length, leb, ◌==◌, Result, ok, err, Exec, pure, lift, try_catch, ◌>>=◌, if◌then◌else◌,
}
use api_proxy.Base.Trim.{is_space, drop_start, starts_with, drop_prefix}
use api_proxy.Contracts.Errors.{Thrown}
use api_proxy.Contracts.Ids.{Platform}
use api_proxy.Contracts.Json.Numeral.{digits, value_from}
use api_proxy.Contracts.Messages.{OutboxEvent}
use api_proxy.Persistence.Keys.{
  TableKey, IndexKeys, chrono_prefix, pending_outbox_shard_keys, processing_shard_keys,
}
use api_proxy.Persistence.Items.{
  Item, OutboxItem, outbox_item, workflow_item, step_item, idempotency_item, decode_outbox,
}
use api_proxy.Persistence.Dynamo.{Table}
use api_proxy.Repository.{RepositoryOptions}
use api_proxy.Repository.Commit.{Evolves}
use api_proxy.Repository.Service.{Service}
use api_proxy.Repository.Methods.{rethrow}

-- An entry of the second index, which projects the keys only. `none` is an attribute that is no
-- string.
pub record StaleEntry : Type 0 where
  pub pk : Option Text
  pub gsi2sk : Option Text

-- `gsi1pk = :shard AND gsi1sk < :boundary`
abbrev pub IsBefore : Text → Text → Option IndexKeys → Type 0
IsBefore shard boundary none = ⊥
IsBefore shard boundary (some k) = (k.index_pk ≡ shard) × (text_lt k.index_sk boundary ≡ true)

abbrev pub MatchesPending : Text → Text → Item → Type 0
MatchesPending shard boundary (outbox_item i) = IsBefore shard boundary i.gsi1
MatchesPending shard boundary (workflow_item i) = ⊥
MatchesPending shard boundary (step_item i) = ⊥
MatchesPending shard boundary (idempotency_item i) = ⊥

-- DynamoDB's Query on the two indexes, with its `Limit`. An index follows the table with a delay:
-- `Held w i` says that in the world `w` the table holds the item `i` or has held it at some time;
-- nothing undoes that.
pub record Indexes {platform : Platform} {options : RepositoryOptions}
    (s : Service platform options) : Type 1 where
  pub query_pending : (shard boundary : Text) → ℕ → Exec s.World Thrown (List Item)
  pub query_processing : (shard boundary : Text) → ℕ → Exec s.World Thrown (List StaleEntry)
  pub Held : s.World → Item → Type 0
  pub query_pending_lem :
      (shard boundary : Text) (limit : ℕ) (w : s.World)
      → Evolves platform options (s.table w) (s.table (query_pending shard boundary limit w).1)
  pub query_processing_lem :
      (shard boundary : Text) (limit : ℕ) (w : s.World)
      → Evolves platform options (s.table w) (s.table (query_processing shard boundary limit w).1)
  pub query_pending_within :
      (shard boundary : Text) (limit : ℕ) (w : s.World) (items : List Item)
      → (query_pending shard boundary limit w).0 ≡ ok items
      → length items ≤ limit
  pub query_processing_within :
      (shard boundary : Text) (limit : ℕ) (w : s.World) (entries : List StaleEntry)
      → (query_processing shard boundary limit w).0 ≡ ok entries
      → length entries ≤ limit
  pub query_pending-Held :
      (shard boundary : Text) (limit : ℕ) (w : s.World) (items : List Item)
      → let a = query_pending shard boundary limit w in
        a.0 ≡ ok items → All (λ i. Held a.1 i × MatchesPending shard boundary i) items
  pub kept_by_query :
      (shard boundary : Text) (limit : ℕ) (w : s.World) (i : Item)
      → Held w i
      → Held (query_pending shard boundary limit w).1 i

-- What `Number.parseInt` returns, when it is finite.
pub data Integer : Type 0 where
  plus minus : ℕ → Integer

abbrev from_digits : (ℕ → Integer) → Text → Option Integer
from_digits sign t =
    let (ds, rest) = digits t in if length ds == 0 then none else some (sign (value_from 0 ds))

unfoldable parse_signed : Text → Option Integer
unfolding digits value_from
parse_signed [] = none
parse_signed (c ∷ t) =
    if c == b'-'
    then from_digits minus t
    else if c == b'+'
    then from_digits plus t
    else from_digits plus (c ∷ t)

-- `Number.parseInt(text, 10)`; `none` is NaN.
unfoldable pub parse_int : Text → Option Integer
unfolding parse_signed drop_start is_space
parse_int t = parse_signed (drop_start is_space t)

-- `text.split("#")[0]`
unfoldable pub before_hash : Text → Text
before_hash [] = []
before_hash (c ∷ t) = let rest = before_hash t in if c == b'#' then [] else c ∷ rest

pub record StaleWorkflowRef : Type 0 where
  pub request_id : Text
  pub deadline_at : Integer

abbrev request_prefix : Text
request_prefix = codes "REQ#"

abbrev ref_from : Option Integer → Text → Option StaleWorkflowRef
ref_from none pk = none
ref_from (some d) pk =
    if starts_with request_prefix pk
    then some (record { request_id = drop_prefix request_prefix pk; deadline_at = d })
    else none

unfoldable pub to_stale_ref : StaleEntry → Option StaleWorkflowRef
unfolding parse_int before_hash starts_with drop_prefix
to_stale_ref entry = elim entry.pk [
  | none ↦ none
  | some pk ↦ elim entry.gsi2sk [
    | none ↦ none
    | some gsi2sk ↦ ref_from (parse_int (before_hash gsi2sk)) pk
  ]
]

-- `if (ref !== undefined) refs.push(ref)`
abbrev pub push_some : Option StaleWorkflowRef → List StaleWorkflowRef → List StaleWorkflowRef
push_some none refs = refs
push_some (some ref) refs = ref ∷ refs

unfoldable pub stale_refs : List StaleEntry → List StaleWorkflowRef
unfolding to_stale_ref
stale_refs [] = []
stale_refs (entry ∷ rest) = push_some (to_stale_ref entry) (stale_refs rest)

-- An item that does not decode ends the loop.
abbrev pub push_decoded :
    Result Thrown OutboxEvent → Result Thrown (List OutboxEvent) → Result Thrown (List OutboxEvent)
push_decoded (err e) events = err e
push_decoded (ok event) (err e) = err e
push_decoded (ok event) (ok events) = ok (event ∷ events)

unfoldable pub decode_page : Platform → List Item → Result Thrown (List OutboxEvent)
unfolding decode_outbox
decode_page platform [] = ok []
decode_page platform (item ∷ items) =
    push_decoded (decode_outbox platform item) (decode_page platform items)

module _ {platform : Platform} {options : RepositoryOptions} {s : Service platform options}
    (indexes : Indexes s) where
  -- Every item of a page is decoded within the `try`.
  unfoldable pub pending_page : (shard boundary : Text) → ℕ → Exec s.World Thrown (List OutboxEvent)
  unfolding decode_page rethrow
  pending_page shard boundary limit =
      try_catch
        (indexes.query_pending shard boundary limit >>= λ items. lift (decode_page platform items))
        pure rethrow

  -- The loop over the shards.
  unfoldable pub pending_from :
      (boundary : Text) (limit : ℕ)
      → List Text
      → List OutboxEvent
      → Exec s.World Thrown (List OutboxEvent)
  unfolding pending_page
  pending_from boundary limit [] events = pure events
  pending_from boundary limit (shard ∷ shards) events =
      if leb limit (length events)
      then pure events
      else (pending_page shard boundary (limit - length events) >>= λ page.
          pending_from boundary limit shards (events ++ page))

  -- The clock reads more than the age: the difference is no negative number.
  unfoldable pub list_pending_outbox :
      (stale_after_ms limit : ℕ) → ℕ → Exec s.World Thrown (List OutboxEvent)
  unfolding pending_from pending_outbox_shard_keys chrono_prefix
  list_pending_outbox stale_after_ms limit now =
      pending_from (chrono_prefix (now - stale_after_ms)) limit pending_outbox_shard_keys []

  unfoldable pub stale_page :
      (shard boundary : Text) → ℕ → Exec s.World Thrown (List StaleWorkflowRef)
  unfolding stale_refs rethrow
  stale_page shard boundary limit =
      try_catch (indexes.query_processing shard boundary limit)
        (λ entries. pure (stale_refs entries)) rethrow

  unfoldable pub stale_from :
      (boundary : Text) (limit : ℕ)
      → List Text
      → List StaleWorkflowRef
      → Exec s.World Thrown (List StaleWorkflowRef)
  unfolding stale_page
  stale_from boundary limit [] refs = pure refs
  stale_from boundary limit (shard ∷ shards) refs =
      if leb limit (length refs)
      then pure refs
      else (stale_page shard boundary (limit - length refs) >>= λ page.
          stale_from boundary limit shards (refs ++ page))

  unfoldable pub list_stale_processing :
      (limit : ℕ) → ℕ → Exec s.World Thrown (List StaleWorkflowRef)
  unfolding stale_from processing_shard_keys chrono_prefix
  list_stale_processing limit now = stale_from (chrono_prefix now) limit processing_shard_keys []
