-- ===== src/Outbox/Handler.antt =====
-- apps/outbox-publisher/src/handler.ts: the handler of a batch of the table's stream.
use api_proxy.Base.{
  Bool, false, not, ◌||◌, Text, codes, text_eq, List, [], ◌∷◌, Option, none, some, is_some, Exec,
  pure, try_catch, ◌>>◌, if◌then◌else◌,
}
use api_proxy.Base.Trim.{starts_with}
use api_proxy.Contracts.Errors.{Thrown}
use api_proxy.Contracts.Ids.{Platform}
use api_proxy.Contracts.Messages.{OutboxEvent, outbox_event_schema}
use api_proxy.Messaging.Publisher.{Sqs, QueueUrls, publish}
use api_proxy.Persistence.Items.{
  Item, outbox_item, workflow_item, step_item, idempotency_item, outbox_of,
}
use api_proxy.Repository.{RepositoryOptions}
use api_proxy.Repository.Service.{Service}
use api_proxy.Repository.Clock.{Clock, timed}
use api_proxy.Repository.Methods.{mark_outbox_published}

-- A record of DynamoDB's stream: the item as it is now, with its sort key.
pub record StreamRecord : Type 0 where
  pub event_name : Text
  pub new_image : Option (Text × Item)
  pub sequence_number : Option Text

-- `item["publishedAt"] !== undefined`
abbrev pub is_published : Item → Bool
is_published (outbox_item i) = is_some i.event.published_at
is_published (workflow_item i) = false
is_published (step_item i) = false
is_published (idempotency_item i) = false

abbrev pub valid_event : Platform → Option OutboxEvent → Option OutboxEvent
valid_event platform none = none
valid_event platform (some e) = if outbox_event_schema platform e then some e else none

-- The event that an image asks to publish, after the checks of its key and its attributes.
unfoldable pub image_event : Platform → Option (Text × Item) → Option OutboxEvent
unfolding starts_with
image_event platform none = none
image_event platform (some (sk, item)) =
    if not (starts_with (codes "OUTBOX#") sk) || is_published item
    then none
    else valid_event platform (outbox_of item)

unfoldable pub pending_event : Platform → StreamRecord → Option OutboxEvent
unfolding image_event
pending_event platform entry =
    if text_eq entry.event_name (codes "INSERT") || text_eq entry.event_name (codes "MODIFY")
    then image_event platform entry.new_image
    else none

-- `identifier === undefined ? [] : [{ itemIdentifier: identifier }]`
abbrev pub checkpoint : StreamRecord → List Text
checkpoint entry = elim entry.sequence_number [ none ↦ [] | some n ↦ n ∷ [] ]

module _ {platform : Platform} {options : RepositoryOptions} (s : Service platform options)
    (clock : Clock platform options s) (sqs : Sqs platform options s clock) (urls : QueueUrls) where
  unfoldable pub publish_event : Option OutboxEvent → Exec s.World Thrown (Unit {0})
  publish_event none = pure tt
  publish_event (some event) =
      publish sqs urls event.destination event.message
      >> timed clock (mark_outbox_published platform options s event.request_id event.event_id)

  unfoldable pub publish_record : StreamRecord → Exec s.World Thrown (Unit {0})
  unfolding publish_event pending_event
  publish_record entry = publish_event (pending_event platform entry)

  -- In order; the first failure ends the batch, and is where the stream goes on.
  unfoldable pub handle_records : List StreamRecord → Exec s.World Thrown (List Text)
  unfolding publish_record
  handle_records [] = pure []
  handle_records (entry ∷ rest) =
      try_catch (publish_record entry) (λ _. handle_records rest) (λ error. pure (checkpoint entry))
