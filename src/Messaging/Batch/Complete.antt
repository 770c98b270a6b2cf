-- ===== src/Messaging/Batch/Complete.antt =====
-- What batch.ts reports, against the outcomes of the handlers.
use api_proxy.Base.{
  ℕ, suc, ◌+◌, ◌<◌, ◌≤◌, ◌≡◌, refl, sym, ap, subst, ◌⊎◌, inl, inr, Text, Option, some, List, [],
  ◌∷◌, ◌++◌, length, length-append, arith, Result,
}
use api_proxy.Contracts.Errors.{Thrown}
use api_proxy.Messaging.{RecordOutcome}
use api_proxy.Messaging.Batch.{
  Pool, min, store, start, Turn, take_item, leave, finish_item, Reached, at_start, after,
  IsFinished, report, add_failure, isolate,
}

Contains : ℕ → List ℕ → Type 0
Contains i [] = ⊥
Contains i (x ∷ xs) = (i ≡ x) ⊎ Contains i xs

Contains-remove :
    (i j : ℕ) (xs ys : List ℕ) → Contains i (xs ++ (j ∷ ys)) → (i ≡ j) ⊎ Contains i (xs ++ ys)
unfolding Contains
Contains-remove i j [] ys h = h
Contains-remove i j (x ∷ xs) ys (inl e) = inr (inl e)
Contains-remove i j (x ∷ xs) ys (inr h) = elim (Contains-remove i j xs ys h) [
  | inl e ↦ inl e
  | inr k ↦ inr (inr k)
]

min_positive : (a b : ℕ) → 1 ≤ a → 1 ≤ b → 1 ≤ min a b
min_positive a b h k = ground arith

module _ {R : Type 0} (n limit : ℕ) (out : ℕ → R) where
  -- Each index below the cursor is being worked on or has its result, and no runner leaves early.
  record Inv (p : Pool R) : Type 0 where
    pub taken : (i : ℕ) → i < p.cursor → i < n → Contains i p.busy ⊎ (p.results i ≡ some (out i))
    pub runners : (n ≤ p.cursor) ⊎ (p.idle + length p.busy ≡ min limit n)

  Inv-start : Inv (start n limit out)
  Inv-start = record { taken = λ i h. absurd (omega arith); runners = inr (omega arith) }

  store-same : (j : ℕ) (f : ℕ → Option R) → store j (out j) f j ≡ some (out j)
  store-same j f = ground arith

  store-kept :
      (i j : ℕ) (f : ℕ → Option R) → f i ≡ some (out i) → store j (out j) f i ≡ some (out i)
  store-kept i j f h = ground arith

  below_suc : (i c : ℕ) → i < c + 1 → (i < c) ⊎ (i ≡ c)
  below_suc i c h = ground arith

  Turn-Inv : (p q : Pool R) → Inv p → Turn n limit out p q → Inv q
  unfolding Contains
  Turn-Inv p q v (take_item k e c) = record {
    taken = λ i h m. elim (below_suc i p.cursor h) [
      | inl a ↦ elim (v.taken i a m) [ inl b ↦ inl (inr b) | inr r ↦ inr r ]
      | inr same ↦ inl (inl same)
    ];
    runners = elim v.runners [ inl a ↦ inl (omega arith) | inr r ↦ inr (omega arith) ];
  }
  Turn-Inv p q v (leave k e c) = record {
    taken = λ i h m. v.taken i (omega arith) m;
    runners = inl (omega arith);
  }
  Turn-Inv p q v (finish_item xs ys j e) = record {
    taken = λ i h m. elim (v.taken i h m) [
      | inl b ↦ elim (Contains-remove i j xs ys (subst (Contains i) e b)) [
        | inl same ↦ inr (
            subst (λ y. store j (out j) p.results y ≡ some (out y)) (sym same)
              (store-same j p.results))
        | inr k ↦ inl k
      ]
      | inr r ↦ inr (store-kept i j p.results r)
    ];
    runners = elim v.runners [
      | inl a ↦ inl a
      | inr r ↦ inr (omega (arith, ap length e, length-append xs (j ∷ ys), length-append xs ys))
    ];
  }

  Reached-Inv : (p : Pool R) → Reached n limit out p → Inv p
  Reached-Inv p at_start = Inv-start
  Reached-Inv p (after {p = u} h t) = Turn-Inv u p (Reached-Inv u h) t

  all_taken :
      (p : Pool R) (i : ℕ) → Inv p → IsFinished n limit out p → 1 ≤ limit → i < n → i < p.cursor
  all_taken p i v (a, b) l m = elim v.runners [
    | inl c ↦ omega arith
    | inr r ↦ absurd (omega (arith, ap length b, min_positive limit n l (omega arith)))
  ]

  -- Every item of a finished run has its own result, however the runners took turns.
  pub finished-results :
      (p : Pool R) (i : ℕ)
      → Reached n limit out p
      → IsFinished n limit out p
      → 1 ≤ limit
      → i < n
      → p.results i ≡ some (out i)
  unfolding Contains
  finished-results p i h (a, b) l m = go (Reached-Inv p h)
    where
      go : Inv p → p.results i ≡ some (out i)
      go v = elim (v.taken i (all_taken p i v (a, b) l m) m) [
        | inl c ↦ elim (subst (Contains i) b c) [ ]
        | inr r ↦ r
      ]

-- The identifiers of the records whose outcome is RETRY, in the order of the batch.
abbrev pub retried : (ℕ → RecordOutcome) → ℕ → List Text → List Text
retried out i [] = []
retried out i (id ∷ ids) = add_failure id (out i) (retried out (suc i) ids)

report_from :
    (out : ℕ → RecordOutcome) (results : ℕ → Option RecordOutcome) (i : ℕ) (ids : List Text)
    → ((k : ℕ) → i ≤ k → k < i + length ids → results k ≡ some (out k))
    → report results i ids ≡ some (retried out i ids)
unfolding report
report_from out results i [] h = refl
report_from out results i (id ∷ ids) h = ground (
  arith,
  h i (omega arith) (omega arith),
  report_from out results (suc i) ids (λ k a b. h k (omega arith) (omega arith)),
)

-- A batch that ends, with at least one runner and in whatever turns, reports exactly the records
-- whose handler answered RETRY or threw, each once and in order; in particular every result is
-- there when the loop reads it.
pub processed-reported :
    (ids : List Text) (limit : ℕ) (handled : ℕ → Result Thrown RecordOutcome)
    (p : Pool RecordOutcome)
    → 1 ≤ limit
    → Reached (length ids) limit (λ i. isolate (handled i)) p
    → IsFinished (length ids) limit (λ i. isolate (handled i)) p
    → report p.results 0 ids ≡ some (retried (λ i. isolate (handled i)) 0 ids)
processed-reported ids limit handled p l h f =
    let out : ℕ → RecordOutcome = λ i. isolate (handled i) in
    report_from out p.results 0 ids
      (λ k a b. finished-results (length ids) limit out p k h f l (omega arith))
