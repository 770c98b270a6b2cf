-- ===== src/Waiter/Found.antt =====
-- waiter.ts: what the result of a wait tells of the workflow.
use api_proxy.Base.{ℕ, ◌≡◌, ◌≤◌, true, Text, some, ok, arith}
use api_proxy.Base.Triple.{Triple-returned}
use api_proxy.Contracts.Ids.{Platform}
use api_proxy.Contracts.Workflow.{is_terminal}
use api_proxy.Persistence.Keys.{workflow_key}
use api_proxy.Persistence.Dynamo.{Table}
use api_proxy.Repository.{RepositoryOptions}
use api_proxy.Repository.Commit.{here}
use api_proxy.Repository.Service.{Service}
use api_proxy.Repository.Clock.{Clock}
use api_proxy.Repository.Outcomes.Terminal.{is_terminal_item, terminal_item_forever}
use api_proxy.Waiter.{
  Floats, PollingSettings, WaitResult, terminal, timed_out, aborted, missing, Timer, Progress,
}
use api_proxy.Waiter.Poll.{wait_for_terminal_state}
use api_proxy.Waiter.Told.{Told, wait_for_terminal_state-Told}

module _ {platform : Platform} {options : RepositoryOptions} {s : Service platform options}
    {floats : Floats} (clock : Clock platform options s) (timer : Timer s floats)
    (polling : PollingSettings floats) (request_id : Text) (deadline_at : ℕ) where
  open s use {World}

  abbrev pub IsLate : Progress clock timer → World → Type 0
  IsLate progress w = deadline_at ≤ progress.time w

  -- What a wait tells in the world that it leaves: the workflow that comes with TERMINAL is finished
  -- and is the one in the table; with MISSING there was none in the table, and with TIMED_OUT it was
  -- there as PROCESSING, at a moment between the start and the end of the wait; and a wait that is
  -- answered with TIMED_OUT does not end before the deadline.
  pub wait-Told :
      (progress : Progress clock timer) (fuel : ℕ) (w : World) (r : WaitResult)
      → let a = wait_for_terminal_state clock timer polling request_id deadline_at fuel w in
        a.0 ≡ ok (some r)
        → Told clock timer polling request_id deadline_at (s.table w) (IsLate progress) r a.1
  wait-Told progress fuel w r e =
      Triple-returned w (some r)
        (wait_for_terminal_state-Told clock timer polling request_id deadline_at (s.table w)
          (IsLate progress) (λ v h. let k = progress.read_before v in omega arith)
          (λ v h. let j = progress.read_after v in let k = progress.read_before v in omega arith)
          fuel)
        here e

  abbrev AnyTime : World → Type 0
  AnyTime w = Unit {0}

  abbrev FoundTerminal : WaitResult → Type 0
  FoundTerminal (terminal workflow n) = is_terminal workflow.status ≡ true
  FoundTerminal (aborted n) = Unit {0}
  FoundTerminal (timed_out n) = ⊥
  FoundTerminal (missing n) = ⊥

  found_terminal :
      (t : Table) (r : WaitResult) (v : World)
      → is_terminal_item (t (workflow_key request_id)) ≡ true
      → Told clock timer polling request_id deadline_at t AnyTime r v
      → FoundTerminal r
  found_terminal t (terminal workflow n) v h k = k.0
  found_terminal t (aborted n) v h k = tt
  found_terminal t (timed_out n) v h k =
      let (u, i, ev, _, e, p) = k.0 in
      let still = terminal_item_forever platform options t u request_id h ev in
      absurd (ground arith)
  found_terminal t (missing n) v h k =
      let (u, ev, _, e) = k in
      let still = terminal_item_forever platform options t u request_id h ev in
      absurd (ground arith)

  -- A workflow that is finished when the wait begins is never answered with TIMED_OUT or MISSING.
  pub wait-finds :
      (fuel : ℕ) (w : World) (r : WaitResult)
      → is_terminal_item (s.table w (workflow_key request_id)) ≡ true
      → (wait_for_terminal_state clock timer polling request_id deadline_at fuel w).0 ≡ ok (some r)
      → FoundTerminal r
  wait-finds fuel w r h e = found_terminal (s.table w) r _ h (
      Triple-returned w (some r)
        (wait_for_terminal_state-Told clock timer polling request_id deadline_at (s.table w) AnyTime
          (λ v _. tt) (λ v _. tt) fuel)
        here e)
