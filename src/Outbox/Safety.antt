-- ===== src/Outbox/Safety.antt =====
-- Publishing an event as transitions of Commit.
use api_proxy.Base.{Text, [], ◌∷◌, Option, none, some}
use api_proxy.Contracts.Ids.{Platform}
use api_proxy.Contracts.Messages.{WorkflowMessage, OutboxEvent, OutboxDestination}
use api_proxy.Messaging.Publisher.{Sqs, QueueUrls, publish_to, publish}
use api_proxy.Repository.{RepositoryOptions}
use api_proxy.Repository.Service.{Service}
use api_proxy.Repository.Clock.{Clock}
use api_proxy.Repository.Safety.{Safe, Safe-pure, Safe-throw, Safe-try_catch}
use api_proxy.Repository.Safety.Methods.{mark_outbox_published-Safe}
use api_proxy.Repository.Safety.Chains.{Safe-read_clock}
use api_proxy.Outbox.Handler.{publish_event}

module _ {platform : Platform} {options : RepositoryOptions} (s : Service platform options)
    (clock : Clock platform options s) (sqs : Sqs platform options s clock) (urls : QueueUrls) where
  send-Safe : (url : Text) (m : WorkflowMessage) → Safe platform options s (sqs.send url m)
  send-Safe url m = record { at = sqs.send_lem url m }

  publish_to-Safe :
      (o : Option Text) (d : OutboxDestination) (m : WorkflowMessage)
      → Safe platform options s (publish_to sqs urls o d m)
  unfolding publish_to
  publish_to-Safe none d m = Safe-throw platform options s _
  publish_to-Safe (some []) d m = Safe-throw platform options s _
  publish_to-Safe (some (c ∷ url)) d m = search (Safe-pure, Safe-throw, Safe-try_catch, send-Safe)

  pub publish_event-Safe :
      (o : Option OutboxEvent) → Safe platform options s (publish_event s clock sqs urls o)
  unfolding publish_event publish
  publish_event-Safe none = Safe-pure platform options s tt
  publish_event-Safe (some e) =
      search
        (Safe-throw, Safe-try_catch, publish_to-Safe, Safe-read_clock, mark_outbox_published-Safe)
        depth 8
