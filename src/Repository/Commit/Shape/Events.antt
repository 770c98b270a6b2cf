-- ===== src/Repository/Commit/Shape/Events.antt =====
-- The shape of outbox items, under each transition.
use api_proxy.Base.{
  ℕ, ◌≡◌, refl, ap, subst, true, ◌&&◌, Text, text_eq, text_eq→eq, Option, none, some, arith,
  if◌then◌else◌,
}
use api_proxy.Contracts.Ids.{Platform}
use api_proxy.Contracts.Messages.{OutboxDestination, WorkflowMessage}
use api_proxy.Persistence.Keys.{outbox_key}
use api_proxy.Persistence.Items.{Item, workflow_item, step_item, outbox_item, idempotency_item}
use api_proxy.Persistence.Dynamo.{Table}
use api_proxy.Repository.{RepositoryOptions}
use api_proxy.Repository.Writes.{new_event, update_outbox, published, first_message, next_message}
use api_proxy.Repository.Commit.{Commit, create, begin, mark_unknown, advance, finish, publish}
use api_proxy.Repository.Commit.Reads.{
  create-outbox, begin-outbox, mark-outbox, advance-outbox, finish-outbox, publish-outbox,
}
use api_proxy.Repository.Commit.Shape.{OutboxShape, if_intro}

module _ (platform : Platform) (options : RepositoryOptions) where
  OutboxShape-published :
      (r e : Text) (now : ℕ) (old : Option Item)
      → OutboxShape r e old
      → OutboxShape r e (update_outbox (published now) old)
  unfolding published
  OutboxShape-published r e now none h = tt
  OutboxShape-published r e now (some (outbox_item i)) h = ground arith
  OutboxShape-published r e now (some (workflow_item _)) h = elim h [ ]
  OutboxShape-published r e now (some (step_item _)) h = elim h [ ]
  OutboxShape-published r e now (some (idempotency_item _)) h = elim h [ ]

  new_event-shape :
      (r : Text) (d : OutboxDestination) (m : WorkflowMessage) (now : ℕ)
      → OutboxShape r m.message_id (some (outbox_item (new_event platform options r d m now)))
  unfolding new_event
  new_event-shape r d m now = (refl, refl, refl, refl)

  at_event :
      (q r f e : Text) (o : Option Item)
      → (text_eq q r && text_eq f e) ≡ true
      → OutboxShape q f o
      → OutboxShape r e o
  at_event q r f e o h p =
      let a = text_eq→eq q r (ground arith) in
      let b = text_eq→eq f e (ground arith) in
      subst (λ x. OutboxShape x e o) a (subst (λ x. OutboxShape q x o) b p)

  stored_event :
      (q r e : Text) (d : OutboxDestination) (m : WorkflowMessage) (now : ℕ) (o : Option Item)
      → OutboxShape r e o
      → OutboxShape r e (
          if text_eq q r && text_eq m.message_id e
          then some (outbox_item (new_event platform options q d m now))
          else o)
  stored_event q r e d m now o w =
      if_intro (OutboxShape r e) (text_eq q r && text_eq m.message_id e) _ _
        (λ h.
          at_event q r m.message_id e (some (outbox_item (new_event platform options q d m now))) h
            (new_event-shape q d m now))
        w

  module _ (t u : Table) where
    -- An event is in the index of pending events exactly until it is marked as published.
    pub Commit-OutboxShape :
        ((r e : Text) → OutboxShape r e (t (outbox_key r e)))
        → Commit platform options t u
        → (r e : Text) → OutboxShape r e (u (outbox_key r e))
    Commit-OutboxShape w (create input now v a c) r e =
        rw
          (ap (λ (f : Table). f (outbox_key r e)) c, create-outbox platform options t input now r e)
          (stored_event input.request_id r e OutboxDestination.start_queue
            (first_message platform options input now) now (t (outbox_key r e)) (w r e))
    Commit-OutboxShape w (begin q s ref now a c) r e =
        rw
          (
            ap (λ (f : Table). f (outbox_key r e)) c,
            begin-outbox platform options t q s ref now r e,
          )
          (w r e)
    Commit-OutboxShape w (mark_unknown q s now a c) r e =
        rw (ap (λ (f : Table). f (outbox_key r e)) c, mark-outbox platform options t q s now r e)
          (w r e)
    Commit-OutboxShape w (advance p now v x a c) r e =
        rw (ap (λ (f : Table). f (outbox_key r e)) c, advance-outbox platform options t p now r e)
          (stored_event p.request_id r e p.destination (next_message platform options p now) now
            (t (outbox_key r e)) (w r e))
    Commit-OutboxShape w (finish p now v a c) r e =
        rw (ap (λ (f : Table). f (outbox_key r e)) c, finish-outbox platform options t p now r e)
          (w r e)
    Commit-OutboxShape w (publish q f now a c) r e =
        rw (ap (λ (g : Table). g (outbox_key r e)) c, publish-outbox platform options t q f now r e)
          (if_intro (OutboxShape r e) (text_eq q r && text_eq f e) _ _
            (λ h. at_event q r f e _ h (OutboxShape-published q f now (t (outbox_key q f)) (w q f)))
            (w r e))
