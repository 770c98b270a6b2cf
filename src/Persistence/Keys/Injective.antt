-- ===== src/Persistence/Keys/Injective.antt =====
-- What can be read back from a key of keys.ts.
use api_proxy.Base.{ℕ, ◌≡◌, refl, ap, ◌≢◌, true, Text, [], ◌∷◌, ◌++◌, all, arith}
use api_proxy.Contracts.Ids.{tenant_id_schema, is_tenant_char}
use api_proxy.Persistence.Keys.{TableKey, idempotency_key_item}

tenant_char-ne-hash : (c : ℕ) → is_tenant_char c ≡ true → c ≢ 35
unfolding is_tenant_char
tenant_char-ne-hash c h e = ground arith

split_at_hash :
    (a b k l : Text)
    → all is_tenant_char a ≡ true
    → all is_tenant_char b ≡ true
    → a ++ (35 ∷ k) ≡ b ++ (35 ∷ l)
    → (a ≡ b) × (k ≡ l)
split_at_hash [] [] k l p q e = (refl, cc)
split_at_hash [] (c ∷ b) k l p q e = ground (arith, tenant_char-ne-hash c)
split_at_hash (c ∷ a) [] k l p q e = ground (arith, tenant_char-ne-hash c)
split_at_hash (c ∷ a) (d ∷ b) k l p q e = ground (arith, split_at_hash a b k l)

-- A tenant's identifier has no `#`, so tenant and idempotency key can be read back from the key.
pub idempotency_key_item-injective :
    (a b k l : Text)
    → tenant_id_schema a ≡ true
    → tenant_id_schema b ≡ true
    → idempotency_key_item a k ≡ idempotency_key_item b l
    → (a ≡ b) × (k ≡ l)
unfolding idempotency_key_item tenant_id_schema
idempotency_key_item-injective a b k l p q e =
    split_at_hash a b k l (ground arith) (ground arith)
      (ground (arith, ap (λ (x : TableKey). x.pk) e))
