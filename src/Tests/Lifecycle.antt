-- ===== src/Tests/Lifecycle.antt =====
-- A task that drains, is asked to be ready again, and stops.
use api_proxy.Base.{◌≡◌, true, false, List, [], ◌∷◌}
use api_proxy.Lifecycle.{
  Call, new_lifecycle, mark_ready, begin_drain, abort_waits, run, is_accepting_work,
  drained_forever,
}

abbrev calls : List Call
calls = Call.call_ready ∷ Call.call_abort ∷ Call.call_ready ∷ Call.call_stopped ∷ []

drained_forever_example :
    (is_accepting_work (run calls (begin_drain (mark_ready new_lifecycle))).state ≡ false)
    × ((run calls (abort_waits (mark_ready new_lifecycle))).aborted ≡ true)
drained_forever_example = drained_forever calls (mark_ready new_lifecycle)
