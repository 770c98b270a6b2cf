-- ===== src/Repository/Sweep/Listed.antt =====
-- What the list of pending events holds.
use api_proxy.Base.{
  ℕ, ◌-◌, ◌≡◌, refl, ap, ◌∙◌, ◌≤◌, Text, List, [], ◌∷◌, ◌++◌, All, length, length-append, leb,
  Result, ok, err, arith,
}
use api_proxy.Base.Triple.{
  Ends-cases, Triple, Triple-pure, Triple-throw, Triple-lift, Triple-if, Triple-try_catch,
  Triple-bind,
}
use api_proxy.Contracts.Errors.{Thrown}
use api_proxy.Contracts.Ids.{Platform}
use api_proxy.Contracts.Messages.{OutboxEvent}
use api_proxy.Persistence.Items.{Item, decode_outbox}
use api_proxy.Persistence.Dynamo.{Table}
use api_proxy.Repository.{RepositoryOptions}
use api_proxy.Repository.Commit.{Evolves, Evolves-trans}
use api_proxy.Repository.Service.{Service}
use api_proxy.Repository.Methods.{rethrow}
use api_proxy.Repository.Sweep.{
  Indexes, MatchesPending, push_decoded, decode_page, pending_page, pending_from,
}

module _ {A : Type 0} (P : A → Type 0) where
  All-append : (xs ys : List A) → All P xs → All P ys → All P (xs ++ ys)
  All-append [] ys p q = q
  All-append (x ∷ xs) ys p q = (p.0, All-append xs ys p.1 q)

  pub All-map : (Q : A → Type 0) (xs : List A) → ((x : A) → P x → Q x) → All P xs → All Q xs
  All-map Q [] f p = tt
  All-map Q (x ∷ xs) f p = (f x p.0, All-map Q xs f p.1)

module _ {platform : Platform} {options : RepositoryOptions} {s : Service platform options}
    (indexes : Indexes s) where
  -- The event was decoded from an item that the table has held, with its key in the index of pending
  -- events before `boundary`.
  abbrev pub WasListed : Text → s.World → OutboxEvent → Type 0
  WasListed boundary now e =
      (shard : Text) × (item : Item) × (indexes.Held now item × MatchesPending shard boundary item)
      × (decode_outbox platform item ≡ ok e)

  module _ (Q : Item → Type 0) where
    -- Decoded events, and the items that they come from.
    abbrev Decoded : List Item → List OutboxEvent → Type 0
    Decoded items events =
        (length events ≡ length items)
        × All (λ e. (item : Item) × Q item × (decode_outbox platform item ≡ ok e)) events

    push_decoded-Decoded :
        (item : Item) (items : List Item) (r : Result Thrown OutboxEvent)
        (rs : Result Thrown (List OutboxEvent)) (events : List OutboxEvent)
        → Q item
        → decode_outbox platform item ≡ r
        → ((es : List OutboxEvent) → rs ≡ ok es → Decoded items es)
        → push_decoded r rs ≡ ok events
        → Decoded (item ∷ items) events
    push_decoded-Decoded item items (err e) rs events q d k h = cc
    push_decoded-Decoded item items (ok x) (err e) events q d k h = cc
    push_decoded-Decoded item items (ok x) (ok xs) [] q d k h = cc
    push_decoded-Decoded item items (ok x) (ok xs) (e ∷ es) q d k h =
        let a : x ≡ e = ground arith in
        let b : xs ≡ es = ground arith in
        let (n, l) = k es (ap ok b) in (omega arith, ((item, q, d ∙ ap ok a), l))

    decode_page-Decoded :
        (items : List Item) (events : List OutboxEvent)
        → All Q items
        → decode_page platform items ≡ ok events
        → Decoded items events
    unfolding decode_page
    decode_page-Decoded [] [] q h = (refl, tt)
    decode_page-Decoded [] (e ∷ es) q h = ground arith
    decode_page-Decoded (x ∷ xs) events q h =
        push_decoded-Decoded x xs (decode_outbox platform x) (decode_page platform xs) events q.0
          refl (λ es. decode_page-Decoded xs es q.1) h

  module _ (start : Table) (boundary : Text) where
    abbrev pub Since : s.World → Type 0
    Since w = Evolves platform options start (s.table w)

    abbrev pub Had : List OutboxEvent → s.World → Type 0
    Had events w = Since w × All (WasListed boundary w) events

    Had-later :
        (events : List OutboxEvent) (shard : Text) (limit : ℕ) (w : s.World)
        → Had events w
        → Had events (indexes.query_pending shard boundary limit w).1
    Had-later events shard limit w (e, p) = (
      Evolves-trans platform options e (indexes.query_pending_lem shard boundary limit w),
      All-map _ _ events
          (λ x (own, item, (h, m), d).
            (own, item, (indexes.kept_by_query shard boundary limit w item h, m), d))
          p,
    )

    abbrev ThrownSince : Thrown → s.World → Type 0
    ThrownSince e w = Since w

    abbrev Page : List OutboxEvent → Text → ℕ → List Item → s.World → Type 0
    Page events shard limit items w =
        Had events w
        × (length items ≤ limit)
        × All (λ i. indexes.Held w i × MatchesPending shard boundary i) items

    query_pending-Page :
        (events : List OutboxEvent) (shard : Text) (limit : ℕ)
        → Triple
            (Had events)
            (indexes.query_pending shard boundary limit)
            (Page events shard limit)
            ThrownSince
    query_pending-Page events shard limit = record {
      at = λ w h.
          let a = indexes.query_pending shard boundary limit w in
          let later = Had-later events shard limit w h in
          Ends-cases (Page events shard limit) ThrownSince a.0 a.1
            (λ items k. (
              later,
              indexes.query_pending_within shard boundary limit w items k,
              indexes.query_pending-Held shard boundary limit w items k,
            ))
            (λ e k. later.0);
    }

    rethrow-Since :
        {A : Type 0} {Q : A → s.World → Type 0} (e : Thrown)
        → Triple Since (rethrow e) Q ThrownSince
    unfolding rethrow
    rethrow-Since e = Triple-throw _ (λ w h. h)

    abbrev Listing : List OutboxEvent → ℕ → List OutboxEvent → s.World → Type 0
    Listing events limit page w =
        Had events w × (length page ≤ limit) × All (WasListed boundary w) page

    decode_page-Listing :
        (events : List OutboxEvent) (shard : Text) (limit : ℕ) (items : List Item)
        (page : List OutboxEvent) (w : s.World)
        → decode_page platform items ≡ ok page
        → Page events shard limit items w
        → Listing events limit page w
    decode_page-Listing events shard limit items page w d (h, n, p) =
        let (m, q) =
          decode_page-Decoded (λ i. indexes.Held w i × MatchesPending shard boundary i) items page p
            d in
        (h, omega arith, All-map _ _ page (λ e (item, a, b). (shard, item, a, b)) q)

    pending_page-Listing :
        (events : List OutboxEvent) (shard : Text) (limit : ℕ)
        → Triple
            (Had events)
            (pending_page indexes shard boundary limit)
            (Listing events limit)
            ThrownSince
    unfolding pending_page
    pending_page-Listing events shard limit =
        Triple-try_catch (Listing events limit) ThrownSince _ _ _
          (Triple-bind (Page events shard limit) _ _ (query_pending-Page events shard limit)
            (λ items.
              Triple-lift (decode_page platform items)
                (λ page w d. decode_page-Listing events shard limit items page w d)
                (λ e w h. h.0.0)))
          (λ page. Triple-pure page (λ w h. h)) (λ e. rethrow-Since e)

    abbrev pub Within : ℕ → List OutboxEvent → s.World → Type 0
    Within limit events w = Had events w × (length events ≤ limit)

    append-Within :
        (events page : List OutboxEvent) (limit : ℕ) (w : s.World)
        → length events ≤ limit
        → Listing events (limit - length events) page w
        → Within limit (events ++ page) w
    append-Within events page limit w b (h, n, p) =
        let l = length-append events page in ((h.0, All-append _ events page h.1 p), omega arith)

    -- The pending events that the loop has gathered, of which there are no more than asked for.
    pub pending_from-Within :
        (limit : ℕ) (shards : List Text) (events : List OutboxEvent)
        → length events ≤ limit
        → Triple
            (Had events)
            (pending_from indexes boundary limit shards events)
            (Within limit)
            ThrownSince
    unfolding pending_from
    pending_from-Within limit [] events b = Triple-pure events (λ w h. (h, b))
    pending_from-Within limit (shard ∷ shards) events b =
        Triple-if (leb limit (length events)) _ _ (λ _. Triple-pure events (λ w h. (h, b)))
          (λ _.
            Triple-bind (Listing events (limit - length events)) _ _
              (pending_page-Listing events shard (limit - length events))
              (λ page. record {
                at = λ w h.
                    let (g, n) = append-Within events page limit w b h in
                    (pending_from-Within limit shards (events ++ page) n).at w g;
              }))
