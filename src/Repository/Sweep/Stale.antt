-- ===== src/Repository/Sweep/Stale.antt =====
-- How much the list of stale workflows holds.
use api_proxy.Base.{
  ℕ, ◌+◌, ◌-◌, ◌≤◌, Text, Option, none, some, List, [], ◌∷◌, ◌++◌, length, length-append, leb,
  arith,
}
use api_proxy.Base.Triple.{
  Ends-cases, Triple, Triple-pure, Triple-throw, Triple-if, Triple-try_catch, Triple-bind,
}
use api_proxy.Contracts.Errors.{Thrown}
use api_proxy.Contracts.Ids.{Platform}
use api_proxy.Repository.{RepositoryOptions}
use api_proxy.Repository.Service.{Service}
use api_proxy.Repository.Methods.{rethrow}
use api_proxy.Repository.Sweep.{
  Indexes, StaleEntry, StaleWorkflowRef, to_stale_ref, stale_refs, push_some, stale_page,
  stale_from,
}

push_some_within :
    (o : Option StaleWorkflowRef) (refs : List StaleWorkflowRef)
    → length (push_some o refs) ≤ 1 + length refs
push_some_within none refs = omega arith
push_some_within (some ref) refs = omega arith

stale_refs_within : (entries : List StaleEntry) → length (stale_refs entries) ≤ length entries
unfolding stale_refs
stale_refs_within [] = omega arith
stale_refs_within (x ∷ xs) =
    let ih = stale_refs_within xs in
    let h = push_some_within (to_stale_ref x) (stale_refs xs) in omega arith

module _ {platform : Platform} {options : RepositoryOptions} {s : Service platform options}
    (indexes : Indexes s) where
  module _ (P : s.World → Type 0) (E : Thrown → s.World → Type 0)
      (kept : (shard boundary : Text) (n : ℕ) (w : s.World)
        → P w
        → P (indexes.query_processing shard boundary n w).1)
      (failed : (e : Thrown) (w : s.World) → P w → E e w) where
    abbrev pub StaleWithin : ℕ → List StaleWorkflowRef → s.World → Type 0
    StaleWithin limit refs w = P w × (length refs ≤ limit)

    rethrow-failed :
        {Q : List StaleWorkflowRef → s.World → Type 0} (e : Thrown) → Triple P (rethrow e) Q E
    unfolding rethrow
    rethrow-failed e = Triple-throw _ (failed _)

    abbrev EntriesWithin : ℕ → List StaleEntry → s.World → Type 0
    EntriesWithin limit entries w = P w × (length entries ≤ limit)

    stale_page-Within :
        (shard boundary : Text) (limit : ℕ)
        → Triple P (stale_page indexes shard boundary limit) (StaleWithin limit) E
    unfolding stale_page
    stale_page-Within shard boundary limit =
        Triple-try_catch (EntriesWithin limit) (λ e. P) _ _ _
          (record {
            at = λ w h.
                let a = indexes.query_processing shard boundary limit w in
                let later = kept shard boundary limit w h in
                Ends-cases (EntriesWithin limit) (λ e. P) a.0 a.1
                  (λ entries k.
                    (later, indexes.query_processing_within shard boundary limit w entries k))
                  (λ e k. later);
          })
          (λ entries.
            Triple-pure (stale_refs entries)
              (λ w h. let n = stale_refs_within entries in let m = h.1 in (h.0, omega arith)))
          (λ e. rethrow-failed e)

    pub stale_from-Within :
        (boundary : Text) (limit : ℕ) (shards : List Text) (refs : List StaleWorkflowRef)
        → length refs ≤ limit
        → Triple P (stale_from indexes boundary limit shards refs) (StaleWithin limit) E
    unfolding stale_from
    stale_from-Within boundary limit [] refs b = Triple-pure refs (λ w h. (h, b))
    stale_from-Within boundary limit (shard ∷ shards) refs b =
        Triple-if (leb limit (length refs)) _ _ (λ _. Triple-pure refs (λ w h. (h, b)))
          (λ _.
            Triple-bind (StaleWithin (limit - length refs)) _ _
              (stale_page-Within shard boundary (limit - length refs))
              (λ page. record {
                at = λ w h.
                    let n = length-append refs page in
                    let m = h.1 in
                    (stale_from-Within boundary limit shards (refs ++ page) (omega arith)).at w h.0;
              }))
