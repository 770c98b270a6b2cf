-- ===== src/Reconciler/Republish.antt =====
-- The loop of the reconciler: what it sends and what its counters count.
use api_proxy.Base.{ℕ, ◌+◌, ◌≡◌, refl, List, [], ◌∷◌, All, some, length, ok, Exec, arith}
use api_proxy.Base.Triple.{Ends-cases, Triple, Triple-weaken, Triple-pure, Triple-try_catch}
use api_proxy.Contracts.Errors.{Thrown}
use api_proxy.Contracts.Ids.{Platform}
use api_proxy.Contracts.Messages.{OutboxEvent}
use api_proxy.Messaging.Publisher.{Sqs, QueueUrls}
use api_proxy.Outbox.Handler.{publish_event}
use api_proxy.Outbox.Delivery.{
  Keeps, publish_event-Keeps, publish_event-Post, IsDelivered, IsDelivered-kept,
}
use api_proxy.Outbox.Safety.{publish_event-Safe}
use api_proxy.Persistence.Dynamo.{Table}
use api_proxy.Repository.{RepositoryOptions}
use api_proxy.Repository.Commit.{Evolves, Evolves-trans}
use api_proxy.Repository.Service.{Service}
use api_proxy.Repository.Clock.{Clock}
use api_proxy.Repository.Safety.{Safe}
use api_proxy.Repository.Sweep.Listed.{All-map}
use api_proxy.Reconciler.Handler.{republish, republish_all}

-- Each event of the first list stands in one of the two others, in order.
pub data Parted : List OutboxEvent → List OutboxEvent → List OutboxEvent → Type 0 where
  none_left : Parted [] [] []
  left : {e : OutboxEvent} {xs l r : List OutboxEvent} → Parted xs l r → Parted (e ∷ xs) (e ∷ l) r
  right : {e : OutboxEvent} {xs l r : List OutboxEvent} → Parted xs l r → Parted (e ∷ xs) l (e ∷ r)

pub length-Parted : {xs l r : List OutboxEvent} → Parted xs l r → length xs ≡ length l + length r
length-Parted none_left = refl
length-Parted (left p) = omega (arith, length-Parted p)
length-Parted (right p) = omega (arith, length-Parted p)

module _ {platform : Platform} {options : RepositoryOptions} (s : Service platform options)
    (clock : Clock platform options s) (sqs : Sqs platform options s clock) (urls : QueueUrls) where
  republish-Safe : (e : OutboxEvent) → Safe platform options s (republish s clock sqs urls e)
  unfolding republish publish_event
  republish-Safe e = publish_event-Safe s clock sqs urls (some e)

  republish-Keeps : (e : OutboxEvent) → Keeps s clock sqs urls (republish s clock sqs urls e)
  unfolding republish publish_event
  republish-Keeps e = publish_event-Keeps s clock sqs urls (some e)

  republish-IsDelivered :
      (e : OutboxEvent) (w : s.World) (x : Unit {0})
      → (republish s clock sqs urls e w).0 ≡ ok x
      → IsDelivered s clock sqs urls (republish s clock sqs urls e w).1 e
  unfolding republish publish_event
  republish-IsDelivered e w x h = publish_event-Post s clock sqs urls e w x h

  module _ (Listed : OutboxEvent → Type 0) (start : Table) where
    -- In the middle of the loop over the listed events: `sent` is done, `rest` is to do.
    abbrev pub Sweeping : (sent rest : List OutboxEvent) → s.World → Type 0
    Sweeping sent rest v =
        (Evolves platform options start (s.table v) × All Listed rest)
        × All (λ e. Listed e × IsDelivered s clock sqs urls v e) sent

    pub Sweeping-later :
        {A : Type 0} (m : Exec s.World Thrown A) (sent rest : List OutboxEvent) (v : s.World)
        → Evolves platform options (s.table v) (s.table (m v).1)
        → Keeps s clock sqs urls m
        → Sweeping sent rest v
        → Sweeping sent rest (m v).1
    Sweeping-later m sent rest v h k (a, b) = (
      (Evolves-trans platform options a.0 h, a.1),
      All-map _ _ sent (λ e (x, d). (x, IsDelivered-kept s clock sqs urls m v e k d)) b,
    )

    abbrev Anyhow : Thrown → s.World → Type 0
    Anyhow e v = Evolves platform options start (s.table v)

    republish-Sweeping :
        (sent : List OutboxEvent) (e : OutboxEvent) (rest : List OutboxEvent)
        → Triple
            (Sweeping sent (e ∷ rest))
            (republish s clock sqs urls e)
            (λ x. Sweeping (e ∷ sent) rest)
            (λ x. Sweeping sent rest)
    republish-Sweeping sent e rest = record {
      at = λ w h.
          let a = republish s clock sqs urls e w in
          let later =
            Sweeping-later (republish s clock sqs urls e) sent (e ∷ rest) w
              ((republish-Safe e).at w) (republish-Keeps e) h in
          let ((since, (first, others)), done) = later in
          Ends-cases (λ x. Sweeping (e ∷ sent) rest) (λ x. Sweeping sent rest) a.0 a.1
            (λ x k. ((since, others), ((first, republish-IsDelivered e w x k), done)))
            (λ x k. ((since, others), done));
    }

    -- The loop is over: its events are those that were sent and those that failed.
    abbrev pub Counted : (events before : List OutboxEvent) → ℕ × ℕ → ℕ × ℕ → s.World → Type 0
    Counted events before from counts v =
        (sent failed : List OutboxEvent) × Parted events sent failed
        × (counts.0 ≡ from.0 + length sent)
        × (counts.1 ≡ from.1 + length failed)
        × Sweeping before [] v
        × All (λ e. Listed e × IsDelivered s clock sqs urls v e) sent

    abbrev Counts : List OutboxEvent → List OutboxEvent → ℕ → ℕ → Type 0
    Counts events before r f =
        Triple (Sweeping before events) (republish_all s clock sqs urls events r f)
          (Counted events before (r, f)) Anyhow

    Counted-sent :
        (e : OutboxEvent) (events before : List OutboxEvent) (r f : ℕ) (counts : ℕ × ℕ)
        (v : s.World)
        → Counted events (e ∷ before) (r + 1, f) counts v
        → Counted (e ∷ events) before (r, f) counts v
    Counted-sent e events before r f counts v (sent, failed, p, n, m, (h, (x, old)), d) =
        (e ∷ sent, failed, left p, omega arith, m, (h, old), (x, d))

    Counted-failed :
        (e : OutboxEvent) (events before : List OutboxEvent) (r f : ℕ) (counts : ℕ × ℕ)
        (v : s.World)
        → Counted events before (r, f + 1) counts v
        → Counted (e ∷ events) before (r, f) counts v
    Counted-failed e events before r f counts v (sent, failed, p, n, m, h, d) =
        (sent, e ∷ failed, right p, n, omega arith, h, d)

    pub republish_all-Counted :
        (events before : List OutboxEvent) (republished publish_failures : ℕ)
        → Counts events before republished publish_failures
    unfolding republish_all
    republish_all-Counted [] before r f =
        Triple-pure (r, f) (λ w h. ([], [], none_left, omega arith, omega arith, h, tt))
    republish_all-Counted (e ∷ events) before r f =
        Triple-try_catch (λ x. Sweeping (e ∷ before) events) (λ x. Sweeping before events) _ _ _
          (republish-Sweeping before e events)
          (λ x.
            Triple-weaken (Counted-sent e events before r f)
              (republish_all-Counted events (e ∷ before) (r + 1) f))
          (λ x.
            Triple-weaken (Counted-failed e events before r f)
              (republish_all-Counted events before r (f + 1)))
