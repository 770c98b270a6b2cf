-- ===== src/Repository/Safety/Chains.antt =====
-- Chains of calls whose later links rely on what the earlier ones left in the table.
use api_proxy.Base.{
  ◌≡◌, refl, Bool, true, false, if◌then◌else◌, Result, ok, err, Exec, throw, lift, try_catch,
  resume, ◌>>=◌,
}
use api_proxy.Contracts.Errors.{Thrown}
use api_proxy.Contracts.Ids.{Platform}
use api_proxy.Repository.{RepositoryOptions}
use api_proxy.Repository.Commit.{Evolves, here, Evolves-trans}
use api_proxy.Repository.Service.{Service}
use api_proxy.Repository.Clock.{Clock, read_clock}
use api_proxy.Repository.Safety.{Safe}

module _ {platform : Platform} {options : RepositoryOptions} (s : Service platform options) where
  -- From the world `w`, `m` makes transitions only.
  abbrev pub Moves : {A : Type 0} → Exec s.World Thrown A → s.World → Type 0
  Moves m w = Evolves platform options (s.table w) (s.table (m w).1)

  resume-Moves :
      {A B : Type 0} (r : Result Thrown A) (f : A → Exec s.World Thrown B)
      (h : Thrown → Exec s.World Thrown B) (v : s.World)
      → ((a : A) → r ≡ ok a → Moves (f a) v)
      → ((e : Thrown) → r ≡ err e → Moves (h e) v)
      → Moves (resume r f h) v
  resume-Moves (ok a) f h v p q = p a refl
  resume-Moves (err e) f h v p q = q e refl

  pub try_catch-Moves :
      {A B : Type 0} (m : Exec s.World Thrown A) (f : A → Exec s.World Thrown B)
      (h : Thrown → Exec s.World Thrown B) (w : s.World)
      → Moves m w
      → ((a : A) → (m w).0 ≡ ok a → Moves (f a) (m w).1)
      → ((e : Thrown) → (m w).0 ≡ err e → Moves (h e) (m w).1)
      → Moves (try_catch m f h) w
  unfolding try_catch
  try_catch-Moves m f h w k p q =
      Evolves-trans platform options k (resume-Moves (m w).0 f h (m w).1 p q)

  pub bind-Moves :
      {A B : Type 0} (m : Exec s.World Thrown A) (f : A → Exec s.World Thrown B) (w : s.World)
      → Moves m w
      → ((a : A) → (m w).0 ≡ ok a → Moves (f a) (m w).1)
      → Moves (m >>= f) w
  unfolding throw
  bind-Moves m f w k p = try_catch-Moves m f throw w k p (λ e _. here)

  pub lift-Moves :
      {A B : Type 0} (r : Result Thrown A) (f : A → Exec s.World Thrown B) (w : s.World)
      → ((a : A) → r ≡ ok a → Moves (f a) w)
      → Moves (lift r >>= f) w
  unfolding lift
  lift-Moves r f w p = bind-Moves (lift r) f w here p

  pub Moves-if :
      {A : Type 0} (b : Bool) (m n : Exec s.World Thrown A) (w : s.World)
      → Moves m w
      → Moves n w
      → Moves (if b then m else n) w
  Moves-if true m n w p q = p
  Moves-if false m n w p q = q

  pub Safe-read_clock :
      (clock : Clock platform options s) → Safe platform options s (read_clock clock)
  Safe-read_clock clock = record { at = clock.read_lem }
