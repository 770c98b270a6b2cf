-- ===== src/Api/KeyStore/Answers.antt =====
-- What `resolve` answers, whatever other requests do to the store while it awaits.
use api_proxy.Base.{ℕ, ◌+◌, ◌≡◌, refl, Text, Option, none, some, leb, Result, ok, err}
use api_proxy.Contracts.Errors.{Thrown}
use api_proxy.Contracts.Ids.{Platform}
use api_proxy.Base.Triple.{Ends, Triple, Triple-pure, Triple-if, Triple-bind, Triple-returned}
use api_proxy.Api.KeyStore.{Index, ApiKeyDocument, ResolvedCaller, index_get, parse_document}
use api_proxy.Api.KeyStore.Index.{Grants, build_index-Grants}
use api_proxy.Api.KeyStore.Store.{
  SecretsOptions, Process, Method, lookup, resolve_miss, or_resolve_miss, resolve,
}
use api_proxy.Api.KeyStore.Steps.{Origin, unloaded, built, IsValid, Steps-IsValid}
use api_proxy.Api.KeyStore.Stepwise.{resolve-Stepwise}

granted :
    {Read : Text → ℕ → Type 0} (index : Index) (h : Text) (c : ResolvedCaller)
    → Origin Read index
    → index_get h index ≡ some c
    → (text : Text) × (now : ℕ) × (d : ApiKeyDocument) × Read text now
      × (parse_document text ≡ ok d)
      × Grants d now h c
unfolding index_get
granted index h c unloaded e = cc
granted index h c (built text now was b) e =
    let (d, parsed, g) = build_index-Grants now text index h c b e in (text, now, d, was, parsed, g)

module _ {options : SecretsOptions} (p : Process options) where
  open p use {World, store}

  -- Anything may be thrown.
  abbrev ThrownAt : Thrown → World → Type 0
  ThrownAt e w = Unit {0}

  -- A caller that is returned stands in the index at the end.
  abbrev InIndex : Text → Option ResolvedCaller → World → Type 0
  InIndex h none w = Unit {0}
  InIndex h (some c) w = index_get h (store w).index ≡ some c

  -- What is asked of a method that only runs before the last lookup.
  any_world :
      {A : Type 0} {P : World → Type 0} (m : Method p A) → Triple P m (λ a w. Unit {0}) ThrownAt
  any_world m = record { at = λ w _. go (m w).0 (m w).1 }
    where
      go :
          {A : Type 0} (r : Result Thrown A) (v : World)
          → Ends (λ (a : A) (w : World). Unit {0}) ThrownAt r v
      go (ok a) v = tt
      go (err e) v = tt

  lookup-InIndex : {P : World → Type 0} (h : Text) → Triple P (lookup p h) (InIndex h) ThrownAt
  unfolding lookup
  lookup-InIndex h = record { at = λ w _. go (index_get h (store w).index) w refl }
    where
      go : (r : Option ResolvedCaller) (w : World) → index_get h (store w).index ≡ r → InIndex h r w
      go none w e = tt
      go (some c) w e = e

  resolve_miss-InIndex :
      {P : World → Type 0} (now : ℕ) (h : Text)
      → Triple P (resolve_miss p now h) (InIndex h) ThrownAt
  unfolding resolve_miss
  resolve_miss-InIndex now h = Triple-bind _ _ _ (any_world _) (λ s.
      Triple-if (leb (s.last_miss_refresh_at + options.negative_cache_ms) now) _ _
        (λ _.
          Triple-bind _ _ _ (any_world _)
            (λ _. Triple-bind _ _ _ (any_world _) (λ _. lookup-InIndex h)))
        (λ _. Triple-pure none (λ w _. tt)))

  or_resolve_miss-InIndex :
      (now : ℕ) (h : Text) (hit : Option ResolvedCaller)
      → Triple (InIndex h hit) (or_resolve_miss p now h hit) (InIndex h) ThrownAt
  or_resolve_miss-InIndex now h none = resolve_miss-InIndex now h
  or_resolve_miss-InIndex now h (some c) = Triple-pure (some c) (λ w e. e)

  resolve-InIndex :
      (platform : Platform) (presented : Text)
      → Triple
          (λ w. Unit {0})
          (resolve p platform presented)
          (InIndex (platform.sha256_hex presented))
          ThrownAt
  unfolding resolve
  resolve-InIndex platform presented =
      let h = platform.sha256_hex presented in
      Triple-bind _ _ _ (any_world _) (λ now. Triple-bind _ _ _ (any_world _) (λ s.
        Triple-bind _ _ _ (any_world _)
          (λ _. Triple-bind _ _ _ (lookup-InIndex h) (λ hit. or_resolve_miss-InIndex now h hit))))

  -- From a store whose index is empty or was built from a text that Secrets Manager had returned, and
  -- whatever other requests do meanwhile, a caller that `resolve` returns is an active tenant of a
  -- valid document that Secrets Manager has returned, with a key whose hash is that of the presented
  -- one and that had not expired at the time that the clock read right after.
  pub resolve_entitled :
      (platform : Platform) (presented : Text) (w : World) (c : ResolvedCaller)
      → IsValid p.Read (store w)
      → (resolve p platform presented w).0 ≡ ok (some c)
      → (text : Text) × (now : ℕ) × (d : ApiKeyDocument) × p.Read text now
        × (parse_document text ≡ ok d)
        × Grants d now (platform.sha256_hex presented) c
  resolve_entitled platform presented w c v e =
      granted _ (platform.sha256_hex presented) c
        (Steps-IsValid ((resolve-Stepwise p platform presented).at w) v).origin
        (Triple-returned w (some c) (resolve-InIndex platform presented) tt e)
