-- ===== src/Reconciler/Handler.antt =====
-- apps/reconciler/src/handler.ts: the sweep that publishes what the stream has left.
use api_proxy.Base.{ℕ, ◌+◌, List, [], ◌∷◌, length, Exec, pure, try_catch, ◌>>=◌, ◌>>◌}
use api_proxy.Contracts.Errors.{Thrown}
use api_proxy.Contracts.Ids.{Platform}
use api_proxy.Contracts.Messages.{OutboxEvent}
use api_proxy.Messaging.Publisher.{Sqs, QueueUrls, publish}
use api_proxy.Repository.{RepositoryOptions}
use api_proxy.Repository.Service.{Service}
use api_proxy.Repository.Clock.{Clock, timed}
use api_proxy.Repository.Methods.{mark_outbox_published}
use api_proxy.Repository.Sweep.{Indexes, list_pending_outbox, list_stale_processing}

pub record ReconcilerOptions : Type 0 where
  pub outbox_stale_after_ms : ℕ
  pub page_size : ℕ

pub record ReconcileSummary : Type 0 where
  pub republished : ℕ
  pub publish_failures : ℕ
  pub stale_workflows : ℕ

module _ {platform : Platform} {options : RepositoryOptions} (s : Service platform options)
    (clock : Clock platform options s) (sqs : Sqs platform options s clock) (urls : QueueUrls) where
  unfoldable pub republish : OutboxEvent → Exec s.World Thrown (Unit {0})
  unfolding publish mark_outbox_published
  republish event =
      publish sqs urls event.destination event.message
      >> timed clock (mark_outbox_published platform options s event.request_id event.event_id)

  -- The loop over the pending events, with the two counters.
  unfoldable pub republish_all :
      List OutboxEvent → (republished publish_failures : ℕ) → Exec s.World Thrown (ℕ × ℕ)
  unfolding republish
  republish_all [] republished publish_failures = pure (republished, publish_failures)
  republish_all (event ∷ events) republished publish_failures =
      try_catch (republish event) (λ _. republish_all events (republished + 1) publish_failures)
        (λ error. republish_all events republished (publish_failures + 1))

  module _ (indexes : Indexes s) (settings : ReconcilerOptions) where
    unfoldable pub reconcile : Exec s.World Thrown ReconcileSummary
    unfolding republish_all list_pending_outbox list_stale_processing
    reconcile =
        timed clock (list_pending_outbox indexes settings.outbox_stale_after_ms settings.page_size)
        >>= λ pending. republish_all pending 0 0 >>= λ counts.
            timed clock (list_stale_processing indexes settings.page_size) >>= λ stale.
            pure (record {
              republished = counts.0;
              publish_failures = counts.1;
              stale_workflows = length stale;
            })
