-- ===== src/Api/KeyStore/Tenants.antt =====
-- The tenants of a credential document that was accepted.
use api_proxy.Base.{
  ◌≡◌, inl, inr, refl, sym, ap, ◌∙◌, subst, Bool, true, Text, Option, none, some, List, [], ◌∷◌,
  Among, ℕ, leb, codes, ok, arith,
}
use api_proxy.Contracts.Ids.{tenant_id_schema}
use api_proxy.Contracts.Json.{Json, Items, nil, cons, property}
use api_proxy.Contracts.Json.Parse.{json_parse}
use api_proxy.Contracts.Domain.{◌>>=◌}
use api_proxy.Api.KeyStore.{
  status_schema, key_entry_schema, TenantEntry, ApiKeyDocument, each, text_with, array_schema,
  tenant_entry_schema, api_key_document_schema, parse_document, ResolvedCaller, Index, build_index,
  index_get,
}
use api_proxy.Api.KeyStore.Index.{build_index-Grants}

text_with-holds : (p : Text → Bool) (j : Json) (t : Text) → text_with p j ≡ some t → p t ≡ true
unfolding text_with
text_with-holds p (Json.text s) t h = ground arith
text_with-holds p Json.null t h = cc
text_with-holds p (Json.boolean b) t h = cc
text_with-holds p (Json.number n) t h = cc
text_with-holds p (Json.other_number n) t h = cc
text_with-holds p (Json.array xs) t h = cc
text_with-holds p (Json.object fs) t h = cc

-- A chain of checks that passes has passed its first one.
chain-some :
    {A B : Type 0} (m : Option A) (f : A → Option B) (b : B)
    → (m >>= f) ≡ some b
    → (a : A) × (m ≡ some a) × (f a ≡ some b)
chain-some none f b h = cc
chain-some (some a) f b h = (a, refl, h)

tenant_entry_schema-tenant :
    (j : Json) (t : TenantEntry)
    → tenant_entry_schema j ≡ some t
    → tenant_id_schema t.tenant_id ≡ true
unfolding tenant_entry_schema
tenant_entry_schema-tenant (Json.object fs) t h =
    let (id, e, h1) =
      chain-some (property (codes "tenantId") fs >>= text_with tenant_id_schema) _ t h in
    let (j, _, holds) =
      chain-some (property (codes "tenantId") fs) (text_with tenant_id_schema) id e in
    let (status, _, h2) = chain-some (property (codes "status") fs >>= status_schema) _ t h1 in
    let (keys, _, h3) =
      chain-some (property (codes "keys") fs >>= array_schema key_entry_schema (λ n. leb 1 n)) _ t
        h2 in
    let same : id ≡ t.tenant_id = ground arith in
    subst (λ x. tenant_id_schema x ≡ true) same (text_with-holds tenant_id_schema j id holds)
tenant_entry_schema-tenant _ t h = cc

each-Among :
    {A : Type 0} (schema : Json → Option A) (xs : Items) (l : List A) (a : A)
    → each schema xs ≡ some l
    → Among a l
    → (j : Json) × (schema j ≡ some a)
unfolding each
each-Among schema nil [] a h k = elim k [ ]
each-Among schema nil (b ∷ l) a h k = cc
each-Among schema (cons x xs) l a h k =
    let (b, e, h1) = chain-some (schema x) _ l h in
    let (bs, e', h2) = chain-some (each schema xs) _ l h1 in
    let same : (b ∷ bs) ≡ l = ground arith in
    elim (subst (Among a) (sym same) k) [
      | inl here ↦ (x, subst (λ y. schema x ≡ some y) (sym here) e)
      | inr later ↦ each-Among schema xs bs a e' later
    ]

array_schema-each :
    {A : Type 0} (schema : Json → Option A) (p : ℕ → Bool) (j : Json) (l : List A)
    → array_schema schema p j ≡ some l
    → (xs : Items) × (each schema xs ≡ some l)
unfolding array_schema
array_schema-each schema p (Json.array xs) l h =
    let (m, e, k) = chain-some (each schema xs) _ l h in
    let same : m ≡ l = ground arith in (xs, e ∙ ap some same)
array_schema-each schema p _ l h = cc

document-tenant :
    (j : Json) (d : ApiKeyDocument) (t : TenantEntry)
    → api_key_document_schema j ≡ some d
    → Among t d.tenants
    → tenant_id_schema t.tenant_id ≡ true
unfolding api_key_document_schema
document-tenant (Json.object fs) d t h k =
    let schema = array_schema tenant_entry_schema (λ n. leb n 10_000) in
    let (ts, e, h1) = chain-some (property (codes "tenants") fs >>= schema) _ d h in
    let (j, _, parsed) = chain-some (property (codes "tenants") fs) schema ts e in
    let same : ts ≡ d.tenants = ground arith in
    let (xs, all_parsed) = array_schema-each tenant_entry_schema (λ n. leb n 10_000) j ts parsed in
    let (x, entry) =
      each-Among tenant_entry_schema xs ts t all_parsed (subst (Among t) (sym same) k) in
    tenant_entry_schema-tenant x t entry
document-tenant _ d t h k = cc

parse_document-schema :
    (text : Text) (d : ApiKeyDocument)
    → parse_document text ≡ ok d
    → (j : Json) × (api_key_document_schema j ≡ some d)
unfolding parse_document
parse_document-schema text d h = go (json_parse text) refl
  where
    go : (o : Option Json) → json_parse text ≡ o → (j : Json) × (api_key_document_schema j ≡ some d)
    go none e = absurd (ground arith)
    go (some j) e = (j, ground arith)

-- A caller of the index of an accepted document has a tenant that meets its schema.
pub build_index-tenant :
    (text : Text) (now : ℕ) (index : Index) (h : Text) (c : ResolvedCaller)
    → build_index text now ≡ ok index
    → index_get h index ≡ some c
    → tenant_id_schema c.tenant_id ≡ true
build_index-tenant text now index h c b e =
    let (d, parsed, granted) = build_index-Grants now text index h c b e in
    let (t, k, among, _, _, opens) = granted in
    let (j, schema) = parse_document-schema text d parsed in
    subst (λ x. tenant_id_schema x ≡ true) (sym (ap (λ x. x.tenant_id) opens.caller))
      (document-tenant j d t schema among)
