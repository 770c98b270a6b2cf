-- ===== src/Messaging/Batch/Ends.antt =====
-- The end of a run of runWithConcurrency in batch.ts.
use api_proxy.Base.{
  ℕ, zero, suc, ◌+◌, ◌-◌, ◌*◌, ◌<◌, ◌≤◌, ◌≡◌, refl, ap, ◌⊎◌, inl, inr, List, [], ◌∷◌, length,
  length-append, ltb, arith, Bool-cases, ltb→lt,
}
use api_proxy.Messaging.Batch.{
  Pool, Turn, take_item, leave, finish_item, Runs, stop, turn, IsFinished,
}

module _ {R : Type 0} (n limit : ℕ) (out : ℕ → R) where
  unfoldable pub measure : Pool R → ℕ
  measure p = 2 * (n - p.cursor) + 2 * length p.busy + p.idle

  -- No run goes on for ever: each turn, whichever it is, makes a natural number smaller.
  pub Turn-measure : (p q : Pool R) → Turn n limit out p q → measure q < measure p
  unfolding measure
  Turn-measure p q (take_item k e c) = omega arith
  Turn-measure p q (leave k e c) = omega arith
  Turn-measure p q (finish_item xs ys j e) =
      omega (arith, ap length e, length-append xs (j ∷ ys), length-append xs ys)

  idle-Turn : (p : Pool R) (k : ℕ) → p.idle ≡ suc k → (q : Pool R) × Turn n limit out p q
  idle-Turn p k e = elim (Bool-cases (ltb p.cursor n)) [
    | inl c ↦ (_, take_item k e (ltb→lt p.cursor n c))
    | inr c ↦ (_, leave k e (ground arith))
  ]

  -- As long as the run is not over, some runner has a turn.
  progress :
      (p : Pool R) (i : ℕ) (b : List ℕ)
      → p.idle ≡ i
      → p.busy ≡ b
      → IsFinished n limit out p ⊎ ((q : Pool R) × Turn n limit out p q)
  progress p zero [] e f = inl (e, f)
  progress p zero (j ∷ ys) e f = inr (_, finish_item [] ys j f)
  progress p (suc k) b e f = inr (idle-Turn p k e)

  ends_within :
      (fuel : ℕ) (p : Pool R)
      → measure p ≤ fuel
      → (q : Pool R) × Runs n limit out p q × IsFinished n limit out q
  ends_within zero p m = elim (progress p p.idle p.busy refl refl) [
    | inl f ↦ (p, stop, f)
    | inr (q, t) ↦ absurd (omega (arith, Turn-measure p q t))
  ]
  ends_within (suc k) p m = elim (progress p p.idle p.busy refl refl) [
    | inl f ↦ (p, stop, f)
    | inr (q, t) ↦
        let (r, rest, f) = ends_within k q (omega (arith, Turn-measure p q t)) in
        (r, turn t rest, f)
  ]

  -- No run gets stuck: from any pool, whatever led to it, there are turns to one in which every
  -- runner has returned and nothing is being worked on.
  pub batch_ends : (p : Pool R) → (q : Pool R) × Runs n limit out p q × IsFinished n limit out q
  batch_ends p = ends_within (measure p) p (omega arith)
