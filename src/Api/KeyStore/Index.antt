-- ===== src/Api/KeyStore/Index.antt =====
-- The index of api-key-store.ts against the document that it is built from.
use api_proxy.Base.{
  ℕ, ◌≡◌, ◌↔◌, ◌⊎◌, inl, inr, refl, sym, ap, ◌∙◌, subst, true, false, Text, text_eq, text_eq_iff,
  text_eq_refl, Option, none, some, is_some, List, [], ◌∷◌, Among, Result, ok, err, Bool-cases,
  if◌then◌else◌, arith,
}
use api_proxy.Contracts.Errors.{Thrown}
use api_proxy.Api.KeyStore.{
  TenantStatus, KeyEntry, TenantEntry, ApiKeyDocument, ResolvedCaller, Index, index_get, index_set,
  is_expired, active_keys, add_keys, add_tenants, parse_document, build_index,
}

-- `k` is a key of the active tenant `t` that has not expired at `now`; `c` is who presents it.
pub record Opens (now : ℕ) (t : TenantEntry) (k : KeyEntry) (c : ResolvedCaller) : Type 0 where
  pub active : t.status ≡ TenantStatus.active
  pub unexpired : is_expired now k.expires_at ≡ false
  pub caller : c ≡ record { tenant_id = t.tenant_id; kid = k.kid }

abbrev pub Grants : ApiKeyDocument → ℕ → Text → ResolvedCaller → Type 0
Grants d now h c =
    (t : TenantEntry) × (k : KeyEntry) × Among t d.tenants
    × Among k t.keys
    × (k.hash ≡ h)
    × Opens now t k c

index_get-set :
    (h g : Text) (c : ResolvedCaller) (m : Index)
    → index_get g (index_set h c m) ≡ (if text_eq h g then some c else index_get g m)
unfolding index_get index_set
index_get-set h g c [] = refl
index_get-set h g c ((j, d) ∷ m) =
    ground (arith, text_eq_iff h g, text_eq_iff j h, text_eq_iff j g, index_get-set h g c m)

module _ (now : ℕ) (tenant_id : Text) where
  abbrev Found : Text → List KeyEntry → ResolvedCaller → Type 0
  Found h ks c =
      (k : KeyEntry) × Among k ks
      × (k.hash ≡ h)
      × (is_expired now k.expires_at ≡ false)
      × (c ≡ record { tenant_id = tenant_id; kid = k.kid })

  -- A key that is found was added by the loop, or was there before.
  add_keys-get :
      (h : Text) (c : ResolvedCaller) (ks : List KeyEntry) (m : Index)
      → index_get h (add_keys now tenant_id ks m) ≡ some c
      → Found h ks c ⊎ (index_get h m ≡ some c)
  unfolding add_keys
  add_keys-get h c [] m e = inr e
  add_keys-get h c (k ∷ ks) m e = elim (add_keys-get h c ks _ e) [
    | inl (j, a, b, d, r) ↦ inl (j, inr a, b, d, r)
    | inr old ↦ elim (Bool-cases (is_expired now k.expires_at)) [
      | inl gone ↦ inr (rw gone at old)
      | inr here ↦
          let set = index_get-set k.hash h (record { tenant_id = tenant_id; kid = k.kid }) m in
          elim (Bool-cases (text_eq k.hash h)) [
            | inl same ↦ inl (k, inl refl, (text_eq_iff k.hash h).0 same, here, ground arith)
            | inr other ↦ inr (ground arith)
          ]
    ]
  ]

  -- What was there stays there, under its key, though perhaps for another caller.
  add_keys-keeps :
      (h : Text) (ks : List KeyEntry) (m : Index)
      → is_some (index_get h m) ≡ true
      → is_some (index_get h (add_keys now tenant_id ks m)) ≡ true
  unfolding add_keys
  add_keys-keeps h [] m e = e
  add_keys-keeps h (k ∷ ks) m e =
      add_keys-keeps h ks _
        (ground (arith, index_get-set k.hash h (record { tenant_id = tenant_id; kid = k.kid }) m))

  add_keys-adds :
      (k : KeyEntry) (ks : List KeyEntry) (m : Index)
      → Among k ks
      → is_expired now k.expires_at ≡ false
      → is_some (index_get k.hash (add_keys now tenant_id ks m)) ≡ true
  unfolding add_keys
  add_keys-adds k [] m a u = elim a [ ]
  add_keys-adds k (j ∷ ks) m (inl e) u = add_keys-keeps k.hash ks _ (
      ground (
        arith,
        index_get-set j.hash k.hash (record { tenant_id = tenant_id; kid = j.kid }) m,
        text_eq_refl k.hash,
      ))
  add_keys-adds k (j ∷ ks) m (inr a) u = add_keys-adds k ks _ a u

module _ (now : ℕ) where
  add_tenants-get :
      (h : Text) (c : ResolvedCaller) (ts : List TenantEntry) (m : Index)
      → index_get h (add_tenants now ts m) ≡ some c
      → Grants (record { tenants = ts }) now h c ⊎ (index_get h m ≡ some c)
  unfolding add_tenants
  add_tenants-get h c [] m e = inr e
  add_tenants-get h c (t ∷ ts) m e = elim (add_tenants-get h c ts _ e) [
    | inl (u, k, a, b, q, o) ↦ inl (u, k, inr a, b, q, o)
    | inr old ↦ first t.status refl old
  ]
    where
      first :
          (s : TenantStatus)
          → t.status ≡ s
          → index_get h (add_keys now t.tenant_id (active_keys t.status t.keys) m) ≡ some c
          → Grants (record { tenants = t ∷ ts }) now h c ⊎ (index_get h m ≡ some c)
      first TenantStatus.disabled e f = inr (rw e at f)
      first TenantStatus.active e f = elim (add_keys-get now t.tenant_id h c t.keys m (rw e at f)) [
        | inl (k, a, q, u, r) ↦
            inl (t, k, inl refl, a, q, record { active = e; unexpired = u; caller = r })
        | inr g ↦ inr g
      ]

  add_tenants-keeps :
      (h : Text) (ts : List TenantEntry) (m : Index)
      → is_some (index_get h m) ≡ true
      → is_some (index_get h (add_tenants now ts m)) ≡ true
  unfolding add_tenants
  add_tenants-keeps h [] m e = e
  add_tenants-keeps h (t ∷ ts) m e =
      add_tenants-keeps h ts _ (add_keys-keeps now t.tenant_id h (active_keys t.status t.keys) m e)

  add_tenants-adds :
      (t : TenantEntry) (k : KeyEntry) (c : ResolvedCaller) (ts : List TenantEntry) (m : Index)
      → Among t ts
      → Among k t.keys
      → Opens now t k c
      → is_some (index_get k.hash (add_tenants now ts m)) ≡ true
  unfolding add_tenants
  add_tenants-adds t k c [] m a b o = elim a [ ]
  add_tenants-adds t k c (u ∷ ts) m (inl e) b o =
      let here : Among k (active_keys u.status u.keys) =
        rw (sym (ap (λ x. x.status) e) ∙ o.active) (subst (λ x. Among k x.keys) e b) in
      add_tenants-keeps k.hash ts _
        (add_keys-adds now u.tenant_id k (active_keys u.status u.keys) m here o.unexpired)
  add_tenants-adds t k c (u ∷ ts) m (inr a) b o = add_tenants-adds t k c ts _ a b o

  pub build_index-Grants :
      (text : Text) (index : Index) (h : Text) (c : ResolvedCaller)
      → build_index text now ≡ ok index
      → index_get h index ≡ some c
      → (d : ApiKeyDocument) × (parse_document text ≡ ok d) × Grants d now h c
  unfolding build_index index_get
  build_index-Grants text index h c b e = go (parse_document text) refl b
    where
      go :
          (r : Result Thrown ApiKeyDocument)
          → parse_document text ≡ r
          → (elim r [ err x ↦ err x | ok d ↦ ok (add_tenants now d.tenants []) ]) ≡ ok index
          → (d : ApiKeyDocument) × (parse_document text ≡ ok d) × Grants d now h c
      go (err x) p k = cc
      go (ok d) p k =
          let same : add_tenants now d.tenants [] ≡ index = ground arith in
          elim (add_tenants-get h c d.tenants [] (ap (index_get h) same ∙ e)) [
            | inl g ↦ (d, p, g)
            | inr no_such ↦ cc
          ]

  -- The index of a document that parses has an answer to a hash exactly if an active tenant of the
  -- document has an unexpired key of that hash.
  pub build_index_complete :
      (text : Text) (d : ApiKeyDocument) (index : Index) (h : Text)
      → parse_document text ≡ ok d
      → build_index text now ≡ ok index
      → (is_some (index_get h index) ≡ true) ↔ ((c : ResolvedCaller) × Grants d now h c)
  unfolding build_index
  build_index_complete text d index h p b = (
    λ e. answered (index_get h index) refl e,
    λ g.
        let (c, granted) = g in
        let (t, k, a, k_in, same, o) = granted in
        let built : add_tenants now d.tenants [] ≡ index = ground arith in
        subst (λ x. is_some (index_get x index) ≡ true) same
          (subst (λ x. is_some (index_get k.hash x) ≡ true) built
            (add_tenants-adds t k c d.tenants [] a k_in o)),
  )
    where
      answered :
          (r : Option ResolvedCaller)
          → index_get h index ≡ r
          → is_some r ≡ true
          → (c : ResolvedCaller) × Grants d now h c
      answered none e f = cc
      answered (some c) e f =
          let (x, q, g) = build_index-Grants text index h c b e in
          let same : x ≡ d = ground arith in (c, subst (λ y. Grants y now h c) same g)
