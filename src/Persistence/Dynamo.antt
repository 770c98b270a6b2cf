-- ===== src/Persistence/Dynamo.antt =====
-- The DynamoDB table as the repository uses it: write requests, and what the service's documentation
-- promises of a call by its answer. The service itself is a parameter (Repository/Service.antt).
use api_proxy.Base.{
  ◌≡◌, Bool, true, false, ◌⊎◌, Option, List, [], ◌∷◌, if◌then◌else◌, Result, ok, err, All,
}
use api_proxy.Contracts.Errors.{
  Reason, Thrown, app_error, conditional_check_failed_exception, transaction_canceled_exception,
  other_error,
}
use api_proxy.Persistence.Items.{Item}
use api_proxy.Persistence.Keys.{TableKey, same_key}

abbrev pub Table : Type 0
Table = TableKey → Option Item

-- One write request: the condition expression as a test of the stored item, and the update
-- expression (or the item put) as a function on it. A condition check has the identity.
pub record Write : Type 0 where
  pub key : TableKey
  pub condition : Option Item → Bool
  pub effect : Option Item → Option Item

abbrev pub holds : Table → Write → Bool
holds t x = x.condition (t x.key)

-- The table after one write; all other items stay.
abbrev pub perform : Write → Table → Table
perform x t k = if same_key x.key k then x.effect (t x.key) else t k

abbrev pub perform_all : List Write → Table → Table
perform_all [] t = t
perform_all (x ∷ xs) t = perform_all xs (perform x t)

abbrev pub AllHold : List Write → Table → Type 0
AllHold xs t = All (λ x. holds t x ≡ true) xs

-- The cancellation reasons stand in the order of the requests, and blame only conditions that
-- do not hold. The list may be missing.
abbrev pub Blames : List Write → Table → List Reason → Type 0
Blames xs t [] = Unit
Blames [] t (r ∷ rs) = ⊥
Blames (x ∷ xs) t (r ∷ rs) =
    (r ≡ Reason.conditional_check_failed → holds t x ≡ false) × Blames xs t rs

-- What `UpdateItem` does with the table, by its answer. A call that fails in transport may have
-- been carried out.
abbrev pub Updates : Write → Table → Result Thrown (Option Item) → Table → Type 0
Updates x t (ok old) t' = (holds t x ≡ true) × (old ≡ t x.key) × (t' ≡ perform x t)
Updates x t (err (conditional_check_failed_exception m)) t' = (holds t x ≡ false) × (t' ≡ t)
Updates x t (err (other_error n m)) t' = (t' ≡ t) ⊎ ((holds t x ≡ true) × (t' ≡ perform x t))
Updates x t (err (transaction_canceled_exception rs m)) t' = ⊥
Updates x t (err (app_error e)) t' = ⊥

-- The same for `TransactWriteItems`: all requests or none.
abbrev pub Transacts : List Write → Table → Result Thrown (Unit {0}) → Table → Type 0
Transacts xs t (ok _) t' = AllHold xs t × (t' ≡ perform_all xs t)
Transacts xs t (err (transaction_canceled_exception rs m)) t' = Blames xs t rs × (t' ≡ t)
Transacts xs t (err (other_error n m)) t' = (t' ≡ t) ⊎ (AllHold xs t × (t' ≡ perform_all xs t))
Transacts xs t (err (conditional_check_failed_exception m)) t' = ⊥
Transacts xs t (err (app_error e)) t' = ⊥

-- And a strongly consistent `GetItem`.
abbrev pub Reads : TableKey → Table → Result Thrown (Option Item) → Table → Type 0
Reads k t (ok item) t' = (item ≡ t k) × (t' ≡ t)
Reads k t (err (other_error n m)) t' = t' ≡ t
Reads k t (err (conditional_check_failed_exception m)) t' = ⊥
Reads k t (err (transaction_canceled_exception rs m)) t' = ⊥
Reads k t (err (app_error e)) t' = ⊥
