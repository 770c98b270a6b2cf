-- ===== src/Tests/KeyStore.antt =====
-- A credential document with one active and one disabled tenant, and a store that reads it.
use api_proxy.Base.{
  ℕ, ◌≡◌, ap, ◌↔◌, refl, inr, true, Text, codes, ◌++◌, Option, none, some, is_some, [], ◌∷◌, Result,
  ok, err, text_eq, try_catch, arith,
}
use api_proxy.Contracts.Errors.{Thrown, other_error}
use api_proxy.Contracts.Ids.{tenant_id_schema, hex64_schema, is_tenant_char, is_hex_char}
use api_proxy.Api.KeyStore.{
  TenantStatus, ApiKeyDocument, ResolvedCaller, Index, parse_document, build_index, index_get,
}
use api_proxy.Api.KeyStore.Index.{Grants, build_index_complete}
use api_proxy.Api.KeyStore.Store.{
  SecretsOptions, KeyStore, new_store, loaded, here, Process, resolve,
}
use api_proxy.Api.KeyStore.Steps.{IsValid, unloaded}
use api_proxy.Api.KeyStore.Answers.{resolve_entitled}
use api_proxy.Api.KeyStore.Loaded.{resolve_answers}
use api_proxy.Api.KeyStore.Known.{resolve_known}
use api_proxy.Tests.Memory.{platform, digest}

-- The digest of the platform of these tests for the text `k1`.
abbrev hash : Text
hash = codes "4000000000000000000000000000000000000000000000000000000000000000"

abbrev pub document : Text
document =
    codes
      "{\"tenants\":[{\"tenantId\":\"acme\",\"status\":\"active\",\"keys\":[{\"kid\":\"a\",\"hash\":\""
    ++ (hash
        ++ codes
            "\"}]},{\"tenantId\":\"gone\",\"status\":\"disabled\",\"keys\":[{\"kid\":\"b\",\"hash\":\"1111111111111111111111111111111111111111111111111111111111111111\",\"expiresAt\":9}]}]}")

abbrev contents : ApiKeyDocument
contents = record {
  tenants =
      record {
        tenant_id = codes "acme";
        status = TenantStatus.active;
        keys = record { kid = codes "a"; hash = hash; expires_at = none } ∷ [];
      }
      ∷ record {
        tenant_id = codes "gone";
        status = TenantStatus.disabled;
        keys =
            record {
              kid = codes "b";
              hash = codes "1111111111111111111111111111111111111111111111111111111111111111";
              expires_at = some 9;
            }
            ∷ [];
      }
      ∷ [];
}

abbrev pub caller : ResolvedCaller
caller = record { tenant_id = codes "acme"; kid = codes "a" }

abbrev pub index : Index
index = (hash, caller) ∷ []

parsed : parse_document document ≡ ok contents
unfolding parse_document text_eq tenant_id_schema hex64_schema is_tenant_char is_hex_char
parsed = refl

pub index_built : build_index document 1_000_000 ≡ ok index
unfolding build_index text_eq tenant_id_schema hex64_schema is_tenant_char is_hex_char
index_built = refl

build_index_complete_example :
    (is_some (index_get hash index) ≡ true)
    ↔ ((c : ResolvedCaller) × Grants contents 1_000_000 hash c)
build_index_complete_example =
    build_index_complete 1_000_000 document contents index hash parsed index_built

abbrev options : SecretsOptions
options = record { cache_ttl_ms = 60_000; negative_cache_ms = 5_000 }

no_load : Thrown
no_load = other_error (codes "Error") (codes "no load")

not_joined : (P : Type 0) → ◌≡◌ {A = Result Thrown (Unit {0})} (err no_load) (ok tt) → P
not_joined P e = absurd (ground arith)

-- Nobody else is at work, Secrets Manager always returns the same, and the clock stands still.
abbrev secrets_process : Result Thrown (Option Text) → Process options
secrets_process answer = record {
  World = KeyStore;
  store = λ s. s;
  write = λ s _. s;
  now = λ s. (1_000_000, s);
  get_secret = λ s. (answer, s);
  join = λ s. (err no_load, s);
  pause = λ s. s;
  Read = λ text now. (answer ≡ ok (some text)) × (now ≡ 1_000_000);
  read_lem = λ w text e. (e, refl);
  write_lem = λ s w. refl;
  now_lem = λ w. refl;
  get_secret_lem = λ w. here;
  join_lem = λ w. here;
  join_loaded = λ w e. not_joined _ e;
  pause_lem = λ w. here;
}

new-IsValid : {Read : Text → ℕ → Type 0} → IsValid Read new_store
new-IsValid = record { origin = unloaded; fresh = inr refl }

abbrev served : Process options
served = secrets_process (ok (some document))

resolved :
    resolve served platform (codes "k1") new_store
    ≡ (ok (some caller), loaded index 1_000_000 new_store)
unfolding resolve build_index try_catch loaded digest text_eq tenant_id_schema hex64_schema
    is_tenant_char is_hex_char
resolved = refl

resolve_entitled_example :
    (text : Text) × (now : ℕ) × (d : ApiKeyDocument) × ((◌≡◌ {A = Result Thrown (Option Text)}
        (ok (some document))
        (ok (some text)))
      × (now ≡ 1_000_000))
    × (parse_document text ≡ ok d)
    × Grants d now (digest (codes "k1")) caller
resolve_entitled_example =
    resolve_entitled served platform (codes "k1") new_store caller new-IsValid
      (ap (λ x. x.0) resolved)

-- Secrets Manager fails, but a document was loaded before.
resolve_answers_example :
    let broken = secrets_process (err no_load) in
    (r : Option ResolvedCaller) × ((resolve broken platform
        (codes "k2")
        (loaded index 900_000 new_store)).0
      ≡ ok r)
unfolding loaded
resolve_answers_example =
    resolve_answers (secrets_process (err no_load)) platform (codes "k2")
      (loaded index 900_000 new_store) refl

resolve_known_example : (resolve served platform (codes "k1") new_store).1.loaded_ever ≡ true
resolve_known_example =
    resolve_known served platform (codes "k1") new_store (some caller) new-IsValid (omega arith)
      (ap (λ x. x.0) resolved)
