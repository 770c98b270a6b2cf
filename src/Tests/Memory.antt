-- ===== src/Tests/Memory.antt =====
-- An in-memory table that meets the laws of Service, and a platform with a toy digest.
use api_proxy.Base.{
  ℕ, ◌+◌, ◌*◌, ◌%◌, ◌≡◌, refl, inl, inr, true, Text, codes, Option, List, [], ◌∷◌, all, Result, ok,
  err, if◌then◌else◌, arith, Bool-cases, length, ◌==◌,
}
use api_proxy.Contracts.Errors.{
  Reason, Thrown, conditional_check_failed_exception, transaction_canceled_exception,
}
use api_proxy.Contracts.Ids.{Platform, hex64_schema, is_hex_char}
use api_proxy.Persistence.Items.{Item}
use api_proxy.Persistence.Dynamo.{
  Table, Write, holds, perform, perform_all, AllHold, Blames, Updates, Transacts,
}
use api_proxy.Repository.{RepositoryOptions}
use api_proxy.Repository.Commit.{here}
use api_proxy.Repository.Service.{Service}

unfoldable pub checksum : Text → ℕ
checksum [] = 0
checksum (c ∷ t) = (c + 3 * checksum t) % 10

-- 63 zeros and a check digit.
unfoldable pub digest : Text → Text
unfolding checksum
digest t =
    (48 + checksum t % 10) ∷ codes "000000000000000000000000000000000000000000000000000000000000000"

pub digest-hex64 : (t : Text) → hex64_schema (digest t) ≡ true
unfolding digest hex64_schema is_hex_char
digest-hex64 t = ground arith

abbrev pub platform : Platform
platform = record {
  sha256_hex = digest;
  is_uuid = λ t. length t == 36;
  sha256_hex-hex64 = digest-hex64;
}

abbrev pub options : RepositoryOptions
options = record { workflow_ttl_days = 30; outbox_ttl_days = 7 }

all_hold : (xs : List Write) (t : Table) → all (holds t) xs ≡ true → AllHold xs t
all_hold [] t h = tt
all_hold (x ∷ xs) t h = (ground arith, all_hold xs t (ground arith))

unfoldable pub blame : List Write → Table → List Reason
blame [] t = []
blame (x ∷ xs) t =
    (if holds t x then Reason.no_reason else Reason.conditional_check_failed) ∷ blame xs t

blame-Blames : (xs : List Write) (t : Table) → Blames xs t (blame xs t)
unfolding blame
blame-Blames [] t = tt
blame-Blames (x ∷ xs) t = (λ e. ground arith, blame-Blames xs t)

unfoldable pub update : Write → Table → Result Thrown (Option Item) × Table
update x t =
    if holds t x
    then (ok (t x.key), perform x t)
    else (err (conditional_check_failed_exception []), t)

pub update_lem : (x : Write) (t : Table) → Updates x t (update x t).0 (update x t).1
unfolding update
update_lem x t = elim (Bool-cases (holds t x)) [
  | inl h ↦ rw (h, update) (h, refl, refl)
  | inr h ↦ rw (h, update) (h, refl)
]

unfoldable pub transact : List Write → Table → Result Thrown (Unit {0}) × Table
unfolding blame
transact xs t =
    if all (holds t) xs
    then (ok tt, perform_all xs t)
    else (err (transaction_canceled_exception (blame xs t) []), t)

pub transact_lem :
    (xs : List Write) (t : Table) → Transacts xs t (transact xs t).0 (transact xs t).1
unfolding transact
transact_lem xs t = elim (Bool-cases (all (holds t) xs)) [
  | inl h ↦ rw (h, transact) (all_hold xs t h, refl)
  | inr h ↦ rw (h, transact) (blame-Blames xs t, refl)
]

-- Every call is served at once, and nobody else is at work.
abbrev pub memory : Service platform options
memory = record {
  World = Table;
  table = λ t. t;
  get = λ k t. (ok (t k), t);
  update = update;
  transact = transact;
  get_lem = λ k t. (t, here, (refl, refl));
  update_lem = λ x t. (t, here, update_lem x t);
  transact_lem = λ xs t. (t, here, transact_lem xs t);
}
