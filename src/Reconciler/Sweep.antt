-- ===== src/Reconciler/Sweep.antt =====
-- What a sweep of the reconciler does to the table and the queues, and what its summary counts.
use api_proxy.Base.{
  ℕ, ◌-◌, ◌≡◌, refl, sym, subst, ◌≤◌, List, [], All, Text, length, ok, Exec, pure, ◌>>=◌, arith,
}
use api_proxy.Base.Triple.{Ends, Ends-here, Triple, Triple-pure, Triple-bind}
use api_proxy.Contracts.Errors.{Thrown}
use api_proxy.Contracts.Ids.{Platform}
use api_proxy.Contracts.Messages.{OutboxEvent}
use api_proxy.Messaging.Publisher.{Sqs, QueueUrls}
use api_proxy.Outbox.Delivery.{Keeps, Keeps-clock, IsDelivered}
use api_proxy.Persistence.Keys.{chrono_prefix, pending_outbox_shard_keys, processing_shard_keys}
use api_proxy.Repository.{RepositoryOptions}
use api_proxy.Repository.Commit.{Evolves}
use api_proxy.Repository.Service.{Service}
use api_proxy.Repository.Clock.{Clock, read_clock, timed}
use api_proxy.Repository.Sweep.{Indexes, pending_from, list_pending_outbox, list_stale_processing}
use api_proxy.Repository.Sweep.Listed.{WasListed, Within, pending_from-Within}
use api_proxy.Repository.Sweep.Stale.{stale_from-Within}
use api_proxy.Reconciler.Republish.{
  Parted, Sweeping, Sweeping-later, Counted, republish_all-Counted,
}
use api_proxy.Reconciler.Handler.{ReconcilerOptions, ReconcileSummary, reconcile}

module _ {platform : Platform} {options : RepositoryOptions} (s : Service platform options)
    (clock : Clock platform options s) (sqs : Sqs platform options s clock) (urls : QueueUrls)
    (indexes : Indexes s) (settings : ReconcilerOptions)
    (kept : (shard boundary : Text) (n : ℕ)
      → Keeps s clock sqs urls (indexes.query_processing shard boundary n))
    (w : s.World) where
  -- Events that stayed pending past this time are stale: the clock's first reading counts.
  abbrev pub stale_boundary : Text
  stale_boundary = chrono_prefix ((clock.read w).0 - settings.outbox_stale_after_ms)

  abbrev pub listing : Exec s.World Thrown (List OutboxEvent)
  listing =
      timed clock (list_pending_outbox indexes settings.outbox_stale_after_ms settings.page_size)

  -- It was listed by the end of the listing.
  abbrev pub IsStale : OutboxEvent → Type 0
  IsStale e = WasListed indexes stale_boundary (listing w).1 e

  abbrev pub Since : s.World → Type 0
  Since v = Evolves platform options (s.table w) (s.table v)

  abbrev pub IsHalted : Thrown → s.World → Type 0
  IsHalted e v = Since v

  abbrev pub IsSwept : ReconcileSummary → s.World → Type 0
  IsSwept summary v =
      Since v
      × (pending sent failed : List OutboxEvent) × ((listing w).0 ≡ ok pending)
      × (length pending ≤ settings.page_size)
      × Parted pending sent failed
      × (length sent ≡ summary.republished)
      × (length failed ≡ summary.publish_failures)
      × All (λ e. IsStale e × IsDelivered s clock sqs urls v e) sent
      × (summary.stale_workflows ≤ settings.page_size)

  abbrev Listed : List OutboxEvent → s.World → Type 0
  Listed = Within indexes (s.table w) stale_boundary settings.page_size

  abbrev SweptSome : List OutboxEvent → List OutboxEvent → s.World → Type 0
  SweptSome = Sweeping s clock sqs urls IsStale (s.table w)

  abbrev OnlyHere : s.World → Type 0
  OnlyHere v = v ≡ w

  pending-Listed :
      Triple OnlyHere
        (timed clock
          (list_pending_outbox indexes settings.outbox_stale_after_ms settings.page_size))
        Listed
        IsHalted
  unfolding list_pending_outbox
  pending-Listed =
      Triple-bind (λ n v. (n ≡ (clock.read w).0) × Since v) (read_clock clock) _
        (record {
          at = λ v e.
              subst (λ u. ((clock.read u).0 ≡ (clock.read w).0) × Since (clock.read u).1) (sym e)
                (refl, clock.read_lem w);
        })
        (λ n. record {
          at = λ v (e, h).
              subst
                (λ m.
                  let a =
                    pending_from indexes (chrono_prefix (m - settings.outbox_stale_after_ms))
                      settings.page_size pending_outbox_shard_keys [] v in
                  Ends Listed IsHalted a.0 a.1)
                (sym e)
                ((pending_from-Within indexes (s.table w) stale_boundary settings.page_size
                    pending_outbox_shard_keys [] (omega arith)).at
                  v (h, tt));
        })

  pending-Listed_here :
      Triple OnlyHere
        (timed clock
          (list_pending_outbox indexes settings.outbox_stale_after_ms settings.page_size))
        (λ pending v. Listed pending v × (v ≡ (listing w).1) × ((listing w).0 ≡ ok pending))
        IsHalted
  pending-Listed_here = record {
    at = λ v e.
        subst
          (λ u.
            let a =
              timed clock
                (list_pending_outbox indexes settings.outbox_stale_after_ms settings.page_size) u in
            Ends
              (λ pending x. Listed pending x × (x ≡ (listing w).1) × ((listing w).0 ≡ ok pending))
              IsHalted a.0 a.1)
          (sym e) (Ends-here Listed IsHalted _ _ (pending-Listed.at w refl));
  }

  stale-Within :
      (sent : List OutboxEvent)
      → Triple
          (SweptSome sent [])
          (timed clock (list_stale_processing indexes settings.page_size))
          (λ refs v. SweptSome sent [] v × (length refs ≤ settings.page_size))
          IsHalted
  unfolding list_stale_processing
  stale-Within sent =
      Triple-bind (λ n. SweptSome sent []) (read_clock clock) _
        (record {
          at = λ v h.
              Sweeping-later s clock sqs urls IsStale (s.table w) (read_clock clock) sent [] v
                (clock.read_lem v) (Keeps-clock s clock sqs urls) h;
        })
        (λ n.
          stale_from-Within indexes (SweptSome sent []) IsHalted
            (λ shard boundary limit v h.
              Sweeping-later s clock sqs urls IsStale (s.table w)
                (indexes.query_processing shard boundary limit) sent [] v
                (indexes.query_processing_lem shard boundary limit v) (kept shard boundary limit) h)
            (λ e v h. h.0.0) (chrono_prefix n) settings.page_size processing_shard_keys []
            (omega arith))

  list_stale_processing-IsSwept :
      (pending : List OutboxEvent) (counts : ℕ × ℕ)
      → length pending ≤ settings.page_size
      → (listing w).0 ≡ ok pending
      → Triple
          (Counted s clock sqs urls IsStale (s.table w) pending [] (0, 0) counts)
          (timed clock (list_stale_processing indexes settings.page_size) >>= λ stale.
            pure (record {
              republished = counts.0;
              publish_failures = counts.1;
              stale_workflows = length stale;
            }))
          IsSwept
          IsHalted
  list_stale_processing-IsSwept pending counts b e = record {
    at = λ v (sent, failed, p, n, m, h, d).
        (Triple-bind (λ refs u. SweptSome sent [] u × (length refs ≤ settings.page_size)) _ _
            (stale-Within sent)
            (λ refs. Triple-pure _ (λ u (g, k).
              (g.0.0, pending, sent, failed, e, b, p, omega arith, omega arith, g.1, k)))).at
          v (h.0, d);
  }

  -- If reading the second index unsends nothing, a sweep, whatever fails in it, makes only the
  -- transitions that the invariants of the table survive. If it returns, the events that it listed,
  -- a page at most, are those that it counts as republished and those that it counts as failed, and
  -- it counts a page of stale workflows at most. Each event counted as republished is on the queue of
  -- its destination; it was decoded from an item that the table had held by the end of the listing,
  -- pending, with its index key before the boundary that the clock's first reading less the
  -- configured age makes.
  pub reconcile-IsSwept :
      let a = reconcile s clock sqs urls indexes settings w in Ends IsSwept IsHalted a.0 a.1
  unfolding reconcile
  reconcile-IsSwept =
      (Triple-bind _ _ _ pending-Listed_here (λ pending. record {
        at = λ v ((h, b), here, e).
            (Triple-bind (Counted s clock sqs urls IsStale (s.table w) pending [] (0, 0)) _ _
                (republish_all-Counted s clock sqs urls IsStale (s.table w) pending [] 0 0)
                (λ counts. list_stale_processing-IsSwept pending counts b e)).at
              v ((h.0, subst (λ x. All (WasListed indexes stale_boundary x) pending) here h.1), tt);
      })).at
        w refl
