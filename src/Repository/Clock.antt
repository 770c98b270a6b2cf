-- ===== src/Repository/Clock.antt =====
-- The clock that the repository and the handlers are given.
use api_proxy.Base.{ℕ, ok, Exec, ◌>>=◌}
use api_proxy.Contracts.Errors.{Thrown}
use api_proxy.Contracts.Ids.{Platform}
use api_proxy.Repository.{RepositoryOptions}
use api_proxy.Repository.Commit.{Evolves}
use api_proxy.Repository.Service.{Service}

-- Reading it takes time, in which other tasks may go on.
pub record Clock (platform : Platform) (options : RepositoryOptions) (s : Service platform options)
    : Type 0 where
  pub read : s.World → ℕ × s.World
  pub read_lem : (w : s.World) → Evolves platform options (s.table w) (s.table (read w).1)

module _ {platform : Platform} {options : RepositoryOptions} {s : Service platform options}
    (clock : Clock platform options s) where
  -- `clock.now()`
  abbrev pub read_clock : Exec s.World Thrown ℕ
  read_clock w = let (n, v) = clock.read w in (ok n, v)

  -- A method that reads the clock first.
  abbrev pub timed : {A : Type 0} → (ℕ → Exec s.World Thrown A) → Exec s.World Thrown A
  timed f = read_clock >>= f
