-- ===== src/Messaging/Batch.antt =====
-- packages/messaging/src/batch.ts: a batch of records, a few at a time.
pub mod Complete
pub mod Ends
use api_proxy.Base.{
  ℕ, zero, suc, ◌+◌, ◌<◌, ◌≤◌, ◌≡◌, Bool, Text, Option, none, some, List, [], ◌∷◌, ◌++◌, Result, ok,
  err, leb, ◌==◌, if◌then◌else◌,
}
use api_proxy.Contracts.Errors.{Thrown}
use api_proxy.Messaging.{RecordOutcome}

-- `Math.min`
abbrev pub min : ℕ → ℕ → ℕ
min a b = if leb a b then a else b

-- The shared state of the runners: the next index, how many of them are between two items, the
-- indices that are being worked on, and the results so far.
pub record Pool (R : Type 0) : Type 0 where
  pub cursor : ℕ
  pub idle : ℕ
  pub busy : List ℕ
  pub results : ℕ → Option R

abbrev pub store : {R : Type 0} → ℕ → R → (ℕ → Option R) → ℕ → Option R
store j r f i = if i == j then some r else f i

-- `runWithConcurrency` over `n` items; `out i` is what the worker makes of the item at `i`. The
-- runners take turns only where they await, so each step is one turn.
module _ {R : Type 0} (n limit : ℕ) (out : ℕ → R) where
  abbrev pub start : Pool R
  start = record { cursor = 0; idle = min limit n; busy = []; results = λ i. none }

  pub data Turn (p : Pool R) : Pool R → Type 0 where
    take_item :
        (k : ℕ)
        → p.idle ≡ suc k
        → p.cursor < n
        → Turn p (record p { cursor = p.cursor + 1; idle = k; busy = p.cursor ∷ p.busy })
    leave :
        (k : ℕ)
        → p.idle ≡ suc k
        → n ≤ p.cursor
        → Turn p (record p { cursor = p.cursor + 1; idle = k })
    finish_item :
        (xs ys : List ℕ) (j : ℕ)
        → p.busy ≡ xs ++ (j ∷ ys)
        → Turn p
            (record p { idle = p.idle + 1; busy = xs ++ ys; results = store j (out j) p.results })

  pub data Reached : Pool R → Type 0 where
    at_start : Reached start
    after : {p q : Pool R} → Reached p → Turn p q → Reached q

  -- Any number of turns from one pool to another.
  pub data Runs : Pool R → Pool R → Type 0 where
    stop : {p : Pool R} → Runs p p
    turn : {p q r : Pool R} → Turn p q → Runs q r → Runs p r

  -- `Promise.all` resolves where every runner has returned.
  abbrev pub IsFinished : Pool R → Type 0
  IsFinished p = (p.idle ≡ 0) × (p.busy ≡ [])

-- The `catch` of a record: whatever is thrown becomes RETRY.
unfoldable pub isolate : Result Thrown RecordOutcome → RecordOutcome
isolate (ok outcome) = outcome
isolate (err error) = RecordOutcome.retry

abbrev pub add_failure : Text → RecordOutcome → List Text → List Text
add_failure id RecordOutcome.retry failures = id ∷ failures
add_failure id RecordOutcome.done failures = failures

-- The loop over the results of the records with these identifiers, from the index `i` on. An
-- empty slot would make it throw.
unfoldable pub report : (ℕ → Option RecordOutcome) → ℕ → List Text → Option (List Text)
report results i [] = some []
report results i (id ∷ ids) =
    let rest = report results (suc i) ids in
    elim (results i) [
      | none ↦ none
      | some outcome ↦ elim rest [
        | none ↦ none
        | some failures ↦ some (add_failure id outcome failures)
      ]
    ]
