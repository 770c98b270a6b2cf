-- ===== src/Tests/Batch.antt =====
-- The batch runner at two records and one runner: the second handler throws.
use api_proxy.Base.{
  ℕ, zero, suc, ◌≡◌, refl, ◌<◌, Text, codes, some, none, List, [], ◌∷◌, Result, ok, err, arith,
}
use api_proxy.Contracts.Errors.{Thrown, other_error}
use api_proxy.Messaging.{RecordOutcome}
use api_proxy.Messaging.Batch.{
  Pool, start, take_item, leave, finish_item, Reached, Runs, at_start, after, IsFinished, isolate,
  report, store,
}
use api_proxy.Messaging.Batch.Complete.{processed-reported, retried}
use api_proxy.Messaging.Batch.Ends.{batch_ends, measure, Turn-measure}

abbrev ids : List Text
ids = codes "m-1" ∷ codes "m-2" ∷ []

abbrev handled : ℕ → Result Thrown RecordOutcome
handled zero = ok RecordOutcome.done
handled (suc i) = err (other_error (codes "Error") (codes "boom"))

abbrev out : ℕ → RecordOutcome
out i = isolate (handled i)

abbrev last : Pool RecordOutcome
last = record {
  cursor = 3;
  idle = 0;
  busy = [];
  results = store 1 (out 1) (store 0 (out 0) (λ i. none));
}

last-Reached : Reached 2 1 out last
last-Reached =
    after
      (after
        (after (after (after at_start (take_item 0 refl (omega arith))) (finish_item [] [] 0 refl))
          (take_item 0 refl (omega arith)))
        (finish_item [] [] 1 refl))
      (leave 0 refl (omega arith))

processed-reported_example : report last.results 0 ids ≡ some (retried out 0 ids)
processed-reported_example =
    processed-reported ids 1 handled last (omega arith) last-Reached (refl, refl)

abbrev first : Pool RecordOutcome
first = record { cursor = 1; idle = 0; busy = 0 ∷ []; results = λ i. none }

batch_ends_example : (q : Pool RecordOutcome) × Runs 2 1 out first q × IsFinished 2 1 out q
batch_ends_example = batch_ends 2 1 out first

Turn-measure_example : measure 2 1 out first < measure 2 1 out (start 2 1 out)
Turn-measure_example = Turn-measure 2 1 out (start 2 1 out) first (take_item 0 refl (omega arith))
