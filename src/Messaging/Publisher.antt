-- ===== src/Messaging/Publisher.antt =====
-- packages/messaging/src/publisher.ts: sending a message to the queue of a destination.
use api_proxy.Base.{
  ◌≡◌, Text, codes, ◌++◌, [], ◌∷◌, pure, Option, none, some, ok, Exec, try_catch, throw,
}
use api_proxy.Contracts.Errors.{ErrorCode, Thrown, app_error, retryable_error, non_retryable_error}
use api_proxy.Contracts.Ids.{Platform}
use api_proxy.Contracts.Messages.{WorkflowMessage, OutboxDestination}
use api_proxy.Idempotency.{step_name}
use api_proxy.Persistence.Dynamo.{Write}
use api_proxy.Repository.{RepositoryOptions}
use api_proxy.Repository.Commit.{Evolves}
use api_proxy.Repository.Service.{Service}
use api_proxy.Repository.Clock.{Clock}

-- SQS. `Sent w url m` says that in the world `w` the queue at `url` has accepted the message `m` at
-- some time; nothing undoes that.
pub record Sqs (platform : Platform) (options : RepositoryOptions) (s : Service platform options)
    (clock : Clock platform options s) : Type 1 where
  pub send : Text → WorkflowMessage → Exec s.World Thrown (Unit {0})
  pub Sent : s.World → Text → WorkflowMessage → Type 0
  pub send_lem :
      (url : Text) (m : WorkflowMessage) (w : s.World)
      → Evolves platform options (s.table w) (s.table (send url m w).1)
  pub send-Sent :
      (url : Text) (m : WorkflowMessage) (w : s.World) (x : Unit {0})
      → (send url m w).0 ≡ ok x
      → Sent (send url m w).1 url m
  pub kept_by_send :
      (url : Text) (m : WorkflowMessage) (w : s.World) (v : Text) (n : WorkflowMessage)
      → Sent w v n
      → Sent (send url m w).1 v n
  pub kept_by_update :
      (x : Write) (w : s.World) (v : Text) (n : WorkflowMessage)
      → Sent w v n
      → Sent (s.update x w).1 v n
  pub kept_by_clock :
      (w : s.World) (v : Text) (n : WorkflowMessage) → Sent w v n → Sent (clock.read w).1 v n

-- `QueueUrls`: a role may know only some of the queues.
pub record QueueUrls : Type 0 where
  pub start_queue : Option Text
  pub step_queue : Option Text

unfoldable pub queue_url : QueueUrls → OutboxDestination → Option Text
queue_url urls OutboxDestination.start_queue = urls.start_queue
queue_url urls OutboxDestination.step_queue = urls.step_queue

abbrev pub destination_name : OutboxDestination → Text
destination_name OutboxDestination.start_queue = codes "START_QUEUE"
destination_name OutboxDestination.step_queue = codes "STEP_QUEUE"

module _ {platform : Platform} {options : RepositoryOptions} {s : Service platform options}
    {clock : Clock platform options s} (sqs : Sqs platform options s clock) (urls : QueueUrls) where
  abbrev no_queue : OutboxDestination → Exec s.World Thrown (Unit {0})
  no_queue destination = throw (
      app_error (
        non_retryable_error ErrorCode.internal_error
          (codes "no queue URL configured for destination " ++ destination_name destination)))

  abbrev send_failed : WorkflowMessage → Thrown
  send_failed message = app_error (
      retryable_error ErrorCode.internal_error (
        codes "failed to publish "
        ++ (step_name message.step ++ (codes " for " ++ message.request_id))))

  -- `queueUrl === undefined || queueUrl === ""`
  unfoldable pub publish_to :
      Option Text → OutboxDestination → WorkflowMessage → Exec s.World Thrown (Unit {0})
  publish_to none destination message = no_queue destination
  publish_to (some []) destination message = no_queue destination
  publish_to (some (c ∷ url)) destination message =
      try_catch (sqs.send (c ∷ url) message) pure (λ error. throw (send_failed message))

  unfoldable pub publish : OutboxDestination → WorkflowMessage → Exec s.World Thrown (Unit {0})
  unfolding publish_to queue_url
  publish destination message = publish_to (queue_url urls destination) destination message
