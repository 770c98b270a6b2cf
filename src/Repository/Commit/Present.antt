-- ===== src/Repository/Commit/Present.antt =====
-- The presence of workflows. (DynamoDB's expiry by `expiresAt` is no part of the model.)
use api_proxy.Base.{◌≡◌, true, Text, is_some, ap, arith}
use api_proxy.Contracts.Ids.{Platform}
use api_proxy.Persistence.Keys.{workflow_key}
use api_proxy.Persistence.Dynamo.{Table}
use api_proxy.Repository.{RepositoryOptions}
use api_proxy.Repository.Commit.{
  Commit, Evolves, create, begin, mark_unknown, advance, finish, publish, Evolves-induction,
}
use api_proxy.Repository.Commit.Reads.{
  create-workflow, begin-workflow, mark-workflow, advance-workflow, finish-workflow,
  publish-workflow,
}
use api_proxy.Repository.Commit.Guards.{finish_guard}

module _ (platform : Platform) (options : RepositoryOptions) where
  abbrev pub IsPresent : Table → Text → Type 0
  IsPresent t r = is_some (t (workflow_key r)) ≡ true

  Commit-IsPresent :
      (t u : Table) (r : Text) → IsPresent t r → Commit platform options t u → IsPresent u r
  Commit-IsPresent t u r h (create input now v a e) = ground (
    arith,
    ap (λ (f : Table). f (workflow_key r)) e,
    create-workflow platform options t input now r,
  )
  Commit-IsPresent t u r h (begin q s ref now a e) = ground (
    arith,
    ap (λ (f : Table). f (workflow_key r)) e,
    begin-workflow platform options t q s ref now r,
  )
  Commit-IsPresent t u r h (mark_unknown q s now a e) =
      ground (
        arith,
        ap (λ (f : Table). f (workflow_key r)) e,
        mark-workflow platform options t q s now r,
      )
  Commit-IsPresent t u r h (advance p now v x a e) =
      ground (
        arith,
        ap (λ (f : Table). f (workflow_key r)) e,
        advance-workflow platform options t p now r,
      )
  Commit-IsPresent t u r h (finish p now v a e) = ground (
    arith,
    ap (λ (f : Table). f (workflow_key r)) e,
    finish-workflow platform options t p now r,
    finish_guard platform options t p now a,
  )
  Commit-IsPresent t u r h (publish q f now a e) = ground (
    arith,
    ap (λ (g : Table). g (workflow_key r)) e,
    publish-workflow platform options t q f now r,
  )

  pub IsPresent-forever :
      (t u : Table) (r : Text) → IsPresent t r → Evolves platform options t u → IsPresent u r
  IsPresent-forever t u r h ev =
      Evolves-induction platform options (λ v. IsPresent v r) (λ v w p. Commit-IsPresent v w r p) ev
        h
