-- ===== src/Repository/Service.antt =====
-- DynamoDB, as workflow-repository.ts calls it. The service is no part of the repository's code: it
-- is a parameter, with what its documentation promises as laws.
use api_proxy.Base.{Option, List, Result}
use api_proxy.Contracts.Errors.{Thrown}
use api_proxy.Contracts.Ids.{Platform}
use api_proxy.Persistence.Items.{Item}
use api_proxy.Persistence.Keys.{TableKey}
use api_proxy.Persistence.Dynamo.{Table, Write, Updates, Transacts, Reads}
use api_proxy.Repository.{RepositoryOptions}
use api_proxy.Repository.Commit.{Evolves}

-- `World` holds the table and whatever decides which calls fail. Before a call is carried out the
-- other tasks may have made any number of transitions.
pub record Service (platform : Platform) (options : RepositoryOptions) : Type 1 where
  pub World : Type 0
  pub table : World → Table
  pub get : TableKey → World → Result Thrown (Option Item) × World
  pub update : Write → World → Result Thrown (Option Item) × World
  pub transact : List Write → World → Result Thrown (Unit {0}) × World
  pub get_lem :
      (k : TableKey) (w : World)
      → (t : Table) × Evolves platform options (table w) t
        × Reads k t (get k w).0 (table (get k w).1)
  pub update_lem :
      (x : Write) (w : World)
      → (t : Table) × Evolves platform options (table w) t
        × Updates x t (update x w).0 (table (update x w).1)
  pub transact_lem :
      (xs : List Write) (w : World)
      → (t : Table) × Evolves platform options (table w) t
        × Transacts xs t (transact xs w).0 (table (transact xs w).1)
