-- ===== src/Outbox/Delivery.antt =====
-- What the handler of apps/outbox-publisher has sent.
use api_proxy.Base.{
  ◌≡◌, refl, ap, ◌∙◌, Bool, true, false, Text, List, [], ◌∷◌, Option, none, some, is_some, All,
  Result, ok, err, Exec, pure, throw, try_catch, resume, if◌then◌else◌, arith,
}
use api_proxy.Contracts.Errors.{Thrown}
use api_proxy.Contracts.Ids.{Platform}
use api_proxy.Contracts.Messages.{WorkflowMessage, OutboxEvent, OutboxDestination}
use api_proxy.Messaging.Publisher.{Sqs, QueueUrls, queue_url, publish_to, publish}
use api_proxy.Persistence.Dynamo.{Write}
use api_proxy.Repository.{RepositoryOptions}
use api_proxy.Repository.Service.{Service}
use api_proxy.Repository.Clock.{Clock, timed, read_clock}
use api_proxy.Repository.Methods.{mark_outbox_published, rethrow}
use api_proxy.Repository.Outcomes.Post.{Post, Post-pure, Post-try_catch, Post-bind, Post-throw}
use api_proxy.Outbox.Handler.{
  StreamRecord, pending_event, publish_event, publish_record, handle_records, checkpoint,
}

module _ {platform : Platform} {options : RepositoryOptions} (s : Service platform options)
    (clock : Clock platform options s) (sqs : Sqs platform options s clock) (urls : QueueUrls) where
  -- `m` unsends nothing.
  pub record Keeps {A : Type 0} (m : Exec s.World Thrown A) : Type 0 where
    pub at :
        (w : s.World) (url : Text) (n : WorkflowMessage) → sqs.Sent w url n → sqs.Sent (m w).1 url n

  Keeps-pure : {A : Type 0} (a : A) → Keeps (pure a)
  unfolding pure
  Keeps-pure a = record { at = λ w url n h. h }

  Keeps-throw : {A : Type 0} (e : Thrown) → Keeps (throw {A = A} e)
  unfolding throw
  Keeps-throw e = record { at = λ w url n h. h }

  Keeps-if :
      {A : Type 0} (b : Bool) (m n : Exec s.World Thrown A)
      → Keeps m
      → Keeps n
      → Keeps (if b then m else n)
  Keeps-if true m n p q = p
  Keeps-if false m n p q = q

  Keeps-resume :
      {A B : Type 0} (r : Result Thrown A) (f : A → Exec s.World Thrown B)
      (h : Thrown → Exec s.World Thrown B)
      → ((a : A) → Keeps (f a))
      → ((e : Thrown) → Keeps (h e))
      → Keeps (resume r f h)
  Keeps-resume (ok a) f h p q = p a
  Keeps-resume (err e) f h p q = q e

  Keeps-try_catch :
      {A B : Type 0} (m : Exec s.World Thrown A) (f : A → Exec s.World Thrown B)
      (h : Thrown → Exec s.World Thrown B)
      → Keeps m
      → ((a : A) → Keeps (f a))
      → ((e : Thrown) → Keeps (h e))
      → Keeps (try_catch m f h)
  unfolding try_catch
  Keeps-try_catch m f h k p q = record {
    at = λ w url n x. (Keeps-resume (m w).0 f h p q).at (m w).1 url n (k.at w url n x);
  }

  Keeps-send : (url : Text) (m : WorkflowMessage) → Keeps (sqs.send url m)
  Keeps-send url m = record { at = sqs.kept_by_send url m }

  Keeps-update : (x : Write) → Keeps (s.update x)
  Keeps-update x = record { at = sqs.kept_by_update x }

  pub Keeps-clock : Keeps (read_clock clock)
  Keeps-clock = record { at = sqs.kept_by_clock }

  Keeps-rethrow : {A : Type 0} (e : Thrown) → Keeps (rethrow {A = A} e)
  unfolding rethrow
  Keeps-rethrow e = Keeps-throw _

  mark-Keeps : (r e : Text) → Keeps (timed clock (mark_outbox_published platform options s r e))
  unfolding mark_outbox_published
  mark-Keeps r e =
      search
        (
          Keeps-pure, Keeps-throw, Keeps-if, Keeps-try_catch, Keeps-update, Keeps-clock,
          Keeps-rethrow,
        )
        depth 8

  publish_to-Keeps :
      (o : Option Text) (d : OutboxDestination) (m : WorkflowMessage)
      → Keeps (publish_to sqs urls o d m)
  unfolding publish_to
  publish_to-Keeps none d m = Keeps-throw _
  publish_to-Keeps (some []) d m = Keeps-throw _
  publish_to-Keeps (some (c ∷ url)) d m =
      Keeps-try_catch _ _ _ (Keeps-send (c ∷ url) m) (λ x. Keeps-pure x) (λ e. Keeps-throw _)

  pub publish_event-Keeps : (o : Option OutboxEvent) → Keeps (publish_event s clock sqs urls o)
  unfolding publish_event publish
  publish_event-Keeps none = Keeps-pure tt
  publish_event-Keeps (some e) =
      Keeps-try_catch _ _ _
        (publish_to-Keeps (queue_url urls e.destination) e.destination e.message)
        (λ _. mark-Keeps e.request_id e.event_id) (λ x. Keeps-throw x)

  handle_records-Keeps : (xs : List StreamRecord) → Keeps (handle_records s clock sqs urls xs)
  unfolding handle_records publish_record
  handle_records-Keeps [] = Keeps-pure []
  handle_records-Keeps (x ∷ xs) =
      Keeps-try_catch _ _ _ (publish_event-Keeps (pending_event platform x))
        (λ _. handle_records-Keeps xs) (λ e. Keeps-pure (checkpoint x))

  -- The queue of the event's destination has accepted its message.
  abbrev pub IsDelivered : s.World → OutboxEvent → Type 0
  IsDelivered v e =
      (url : Text) × (queue_url urls e.destination ≡ some url) × sqs.Sent v url e.message

  pub IsDelivered-kept :
      {A : Type 0} (m : Exec s.World Thrown A) (w : s.World) (e : OutboxEvent)
      → Keeps m
      → IsDelivered w e
      → IsDelivered (m w).1 e
  IsDelivered-kept m w e k (url, h, x) = (url, h, k.at w url e.message x)

  -- The queue that the configuration names has accepted the message.
  abbrev Took : Option Text → WorkflowMessage → Unit {0} → s.World → Type 0
  Took o m x v = (url : Text) × (o ≡ some url) × sqs.Sent v url m

  publish_to-Post :
      (o : Option Text) (d : OutboxDestination) (m : WorkflowMessage) (w : s.World)
      → Post (Took o m) (publish_to sqs urls o d m) w
  unfolding publish_to
  publish_to-Post none d m w = Post-throw (Took none m) _ w
  publish_to-Post (some []) d m w = Post-throw (Took (some []) m) _ w
  publish_to-Post (some (c ∷ url)) d m w =
      Post-try_catch (Took (some (c ∷ url)) m) (sqs.send (c ∷ url) m) pure _ w
        (λ x k.
          Post-pure (Took (some (c ∷ url)) m) x _ (c ∷ url, refl, sqs.send-Sent (c ∷ url) m w x k))
        (λ e k. Post-throw (Took (some (c ∷ url)) m) _ _)

  pub publish_event-Post :
      (e : OutboxEvent) (w : s.World)
      → Post (λ _ v. IsDelivered v e) (publish_event s clock sqs urls (some e)) w
  unfolding publish_event publish
  publish_event-Post e w =
      Post-bind (λ _ v. IsDelivered v e)
        (publish_to sqs urls (queue_url urls e.destination) e.destination e.message) _ w
        (λ a k b h.
          IsDelivered-kept
            (timed clock (mark_outbox_published platform options s e.request_id e.event_id)) _ e
            (mark-Keeps e.request_id e.event_id)
            (publish_to-Post (queue_url urls e.destination) e.destination e.message w a k))

  abbrev AsAsked : s.World → Option OutboxEvent → Type 0
  AsAsked v none = Unit {0}
  AsAsked v (some e) = IsDelivered v e

  -- The event that a stream record asks to publish, if it asks for one, is delivered.
  abbrev pub IsServed : s.World → StreamRecord → Type 0
  IsServed v x = AsAsked v (pending_event platform x)

  asked-Post :
      (o : Option OutboxEvent) (w : s.World)
      → Post (λ _ v. AsAsked v o) (publish_event s clock sqs urls o) w
  asked-Post none w a h = tt
  asked-Post (some e) w a h = publish_event-Post e w a h

  publish_record-Post :
      (x : StreamRecord) (w : s.World)
      → Post (λ _ v. IsServed v x) (publish_record s clock sqs urls x) w
  unfolding publish_record
  publish_record-Post x w = asked-Post (pending_event platform x) w

  AsAsked-kept :
      {A : Type 0} (m : Exec s.World Thrown A) (w : s.World) (o : Option OutboxEvent)
      → Keeps m
      → AsAsked w o
      → AsAsked (m w).1 o
  AsAsked-kept m w none k p = tt
  AsAsked-kept m w (some e) k p = IsDelivered-kept m w e k p

  IsServed-kept :
      {A : Type 0} (m : Exec s.World Thrown A) (w : s.World) (x : StreamRecord)
      → Keeps m
      → IsServed w x
      → IsServed (m w).1 x
  IsServed-kept m w x k p = AsAsked-kept m w (pending_event platform x) k p

  no_checkpoint : (x : StreamRecord) → is_some x.sequence_number ≡ true → checkpoint x ≡ [] → ⊥
  no_checkpoint x h k = ground arith

  -- A batch of the stream that is answered with no failure, its records all carrying their sequence
  -- numbers, has put every event that it asks to publish on the queue of its destination.
  pub handle_records-delivered :
      (xs : List StreamRecord) (w : s.World)
      → All (λ x. is_some x.sequence_number ≡ true) xs
      → let a = handle_records s clock sqs urls xs w in a.0 ≡ ok [] → All (IsServed a.1) xs
  unfolding handle_records
  handle_records-delivered [] w n h = tt
  handle_records-delivered (x ∷ xs) w n h =
      let Q = λ (l : List Text) (v : s.World). l ≡ [] → All (IsServed v) (x ∷ xs) in
      Post-try_catch Q (publish_record s clock sqs urls x) _ _ w
        (λ a k l j e. (
          IsServed-kept (handle_records s clock sqs urls xs) _ x (handle_records-Keeps xs)
              (publish_record-Post x w a k),
          handle_records-delivered xs _ n.1 (j ∙ ap ok e),
        ))
        (λ e k. Post-pure Q (checkpoint x) _ (λ c. absurd (no_checkpoint x n.0 c))) [] h refl
