-- ===== src/Contracts/Ids.antt =====
-- packages/contracts/src/ids.ts: the charsets and lengths of the identities.
use api_proxy.Base.{ℕ, ◌≡◌, Bool, true, ◌&&◌, ◌||◌, Text, leb, ◌==◌, length, all}

is_alphanumeric : ℕ → Bool
is_alphanumeric c =
    (leb b'A' c && leb c b'Z') || (leb b'a' c && leb c b'z') || (leb b'0' c && leb c b'9')

-- [A-Za-z0-9._-]
unfoldable pub is_tenant_char : ℕ → Bool
unfolding is_alphanumeric
is_tenant_char c = is_alphanumeric c || c == b'.' || c == b'_' || c == b'-'

-- [A-Za-z0-9._:-]
unfoldable pub is_idempotency_char : ℕ → Bool
unfolding is_alphanumeric
is_idempotency_char c = is_alphanumeric c || c == b'.' || c == b'_' || c == b':' || c == b'-'

-- [0-9a-f]
unfoldable pub is_hex_char : ℕ → Bool
is_hex_char c = (leb b'0' c && leb c b'9') || (leb b'a' c && leb c b'f')

abbrev pub length_within : ℕ → ℕ → Text → Bool
length_within lo hi t = leb lo (length t) && leb (length t) hi

unfoldable pub tenant_id_schema : Text → Bool
tenant_id_schema t = length_within 1 64 t && all is_tenant_char t

unfoldable pub idempotency_key_schema : Text → Bool
idempotency_key_schema t = length_within 8 128 t && all is_idempotency_char t

-- `eventIdSchema`, `externalRefSchema` and the payload hash: /^[0-9a-f]{64}$/
unfoldable pub hex64_schema : Text → Bool
hex64_schema t = length t == 64 && all is_hex_char t

-- What the code takes from outside: Node's SHA-256 in hexadecimal, and zod's test for a UUID.
pub record Platform : Type 0 where
  pub sha256_hex : Text → Text
  pub is_uuid : Text → Bool
  -- A digest of 32 bytes prints as 64 lower-case hexadecimal digits.
  pub sha256_hex-hex64 : (t : Text) → hex64_schema (sha256_hex t) ≡ true
