-- ===== src/Lifecycle.antt =====
-- apps/api/src/lifecycle.ts: readiness and shutdown of a task of the API.
use api_proxy.Base.{ℕ, ◌≤◌, ◌≡◌, refl, Bool, true, false, List, [], ◌∷◌, arith}

pub data LifecycleState : Type 0 where
  starting ready draining stopped : LifecycleState

-- `aborted` is the state of the shutdown signal.
pub record Lifecycle : Type 0 where
  pub state : LifecycleState
  pub aborted : Bool

abbrev pub new_lifecycle : Lifecycle
new_lifecycle = record { state = LifecycleState.starting; aborted = false }

unfoldable pub is_live : LifecycleState → Bool
is_live LifecycleState.stopped = false
is_live LifecycleState.starting = true
is_live LifecycleState.ready = true
is_live LifecycleState.draining = true

-- `isReady` and `isAcceptingWork` are the same test.
unfoldable pub is_accepting_work : LifecycleState → Bool
is_accepting_work LifecycleState.ready = true
is_accepting_work LifecycleState.starting = false
is_accepting_work LifecycleState.draining = false
is_accepting_work LifecycleState.stopped = false

abbrev ready_from : LifecycleState → LifecycleState
ready_from LifecycleState.starting = LifecycleState.ready
ready_from s = s

abbrev drained_from : LifecycleState → LifecycleState
drained_from LifecycleState.draining = LifecycleState.draining
drained_from LifecycleState.stopped = LifecycleState.stopped
drained_from s = LifecycleState.draining

unfoldable pub mark_ready : Lifecycle → Lifecycle
mark_ready l = record l { state = ready_from l.state }

unfoldable pub begin_drain : Lifecycle → Lifecycle
begin_drain l = record l { state = drained_from l.state }

unfoldable pub abort_waits : Lifecycle → Lifecycle
abort_waits l = record l { aborted = true }

unfoldable pub mark_stopped : Lifecycle → Lifecycle
mark_stopped l = record l { state = LifecycleState.stopped }

pub data Call : Type 0 where
  call_ready call_drain call_abort call_stopped : Call

unfoldable pub apply : Call → Lifecycle → Lifecycle
unfolding mark_ready begin_drain abort_waits mark_stopped
apply Call.call_ready l = mark_ready l
apply Call.call_drain l = begin_drain l
apply Call.call_abort l = abort_waits l
apply Call.call_stopped l = mark_stopped l

unfoldable pub run : List Call → Lifecycle → Lifecycle
unfolding apply
run [] l = l
run (c ∷ cs) l = run cs (apply c l)

-- How far the shutdown has come.
abbrev pub stage : LifecycleState → ℕ
stage LifecycleState.starting = 0
stage LifecycleState.ready = 1
stage LifecycleState.draining = 2
stage LifecycleState.stopped = 3

apply-stage : (c : Call) (l : Lifecycle) → stage l.state ≤ stage (apply c l).state
unfolding apply
apply-stage Call.call_ready l = ground arith
apply-stage Call.call_drain l = ground arith
apply-stage Call.call_abort l = ground arith
apply-stage Call.call_stopped l = ground arith

run-stage : (cs : List Call) (l : Lifecycle) → stage l.state ≤ stage (run cs l).state
unfolding run
run-stage [] l = omega arith
run-stage (c ∷ cs) l = omega (arith, apply-stage c l, run-stage cs (apply c l))

accepting_stage : (s : LifecycleState) → 2 ≤ stage s → is_accepting_work s ≡ false
unfolding is_accepting_work
accepting_stage s h = ground arith

begin_drain-stage : (l : Lifecycle) → 2 ≤ stage (begin_drain l).state
unfolding begin_drain
begin_drain-stage l = ground arith

apply-aborted : (c : Call) (l : Lifecycle) → l.aborted ≡ true → (apply c l).aborted ≡ true
unfolding apply
apply-aborted Call.call_ready l h = h
apply-aborted Call.call_drain l h = h
apply-aborted Call.call_abort l h = refl
apply-aborted Call.call_stopped l h = h

run-aborted : (cs : List Call) (l : Lifecycle) → l.aborted ≡ true → (run cs l).aborted ≡ true
unfolding run
run-aborted [] l h = h
run-aborted (c ∷ cs) l h = run-aborted cs (apply c l) (apply-aborted c l h)

-- Once a task drains it accepts no work again, and once its waits are aborted they stay so,
-- whatever is called on it afterwards and whatever it was before.
pub drained_forever :
    (cs : List Call) (l : Lifecycle)
    → (is_accepting_work (run cs (begin_drain l)).state ≡ false)
      × ((run cs (abort_waits l)).aborted ≡ true)
unfolding abort_waits
drained_forever cs l = (
  accepting_stage (run cs (begin_drain l)).state
      (omega (arith, begin_drain-stage l, run-stage cs (begin_drain l))),
  run-aborted cs (abort_waits l) refl,
)
