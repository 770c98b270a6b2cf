-- ===== src/Idempotency/Canonical.antt =====
-- fingerprint.ts: canonical JSON and the fingerprint of a payload. No value of `Json` is `undefined`,
-- and none is a number that is not finite.
use api_proxy.Base.{◌++◌, Text, codes, List, [], ◌∷◌, text_lt, if◌then◌else◌}
use api_proxy.Contracts.Ids.{Platform}
use api_proxy.Contracts.Json.{Json, Items, Fields, nil, cons, end, field}
use api_proxy.Contracts.Json.Stringify.{stringify, quote}

-- One step of a stable sort by key.
unfoldable pub insert_entry : Text × Text → List (Text × Text) → List (Text × Text)
insert_entry e [] = e ∷ []
insert_entry (k, v) ((j, w) ∷ l) =
    if text_lt j k then (j, w) ∷ insert_entry (k, v) l else (k, v) ∷ (j, w) ∷ l

unfoldable pub sort_entries : List (Text × Text) → List (Text × Text)
unfolding insert_entry
sort_entries [] = []
sort_entries (e ∷ l) = insert_entry e (sort_entries l)

-- `join(",")`
unfoldable pub joined : List Text → Text
joined [] = []
joined (t ∷ []) = t
joined (t ∷ u ∷ ts) = t ++ (codes "," ++ joined (u ∷ ts))

unfoldable pub entry_texts : List (Text × Text) → List Text
entry_texts [] = []
entry_texts ((k, v) ∷ l) = (quote k ++ (codes ":" ++ v)) ∷ entry_texts l

-- The values are made canonical before the entries are sorted by their keys.
unfoldable mutual
  unfolding joined entry_texts sort_entries

  pub canonicalize : Json → Text
  canonicalize Json.null = codes "null"
  canonicalize (Json.array xs) = codes "[" ++ (joined (canonical_items xs) ++ codes "]")
  canonicalize (Json.object fs) =
      codes "{" ++ (joined (entry_texts (sort_entries (canonical_entries fs))) ++ codes "}")
  canonicalize (Json.boolean b) = stringify (Json.boolean b)
  canonicalize (Json.number n) = stringify (Json.number n)
  canonicalize (Json.other_number t) = stringify (Json.other_number t)
  canonicalize (Json.text t) = stringify (Json.text t)

  pub canonical_items : Items → List Text
  canonical_items nil = []
  canonical_items (cons v vs) = canonicalize v ∷ canonical_items vs

  pub canonical_entries : Fields → List (Text × Text)
  canonical_entries end = []
  canonical_entries (field k v fs) = (k, canonicalize v) ∷ canonical_entries fs

unfoldable pub payload_fingerprint : Platform → Json → Text
payload_fingerprint platform payload = platform.sha256_hex (canonicalize payload)
