-- ===== src/Idempotency/Order.antt =====
-- What the fingerprint of fingerprint.ts does not depend on.
use api_proxy.Base.{
  ◌≡◌, refl, ap, ◌∙◌, false, Text, text_eq, text_lt-total, text_lt_trans, List, [], ◌∷◌, arith,
}
use api_proxy.Contracts.Ids.{Platform}
use api_proxy.Contracts.Json.{Json, Items, Fields, nil, cons, end, field}
use api_proxy.Idempotency.Canonical.{
  insert_entry, sort_entries, canonicalize, canonical_items, canonical_entries, payload_fingerprint,
}

insert_entry_comm :
    (k j v w : Text) (l : List (Text × Text))
    → text_eq k j ≡ false
    → insert_entry (k, v) (insert_entry (j, w) l) ≡ insert_entry (j, w) (insert_entry (k, v) l)
unfolding insert_entry
insert_entry_comm k j v w [] d = ground (arith, text_lt-total k j d)
insert_entry_comm k j v w ((i, u) ∷ l) d = ground (
  arith,
  text_lt-total k j d,
  text_lt_trans i j k,
  text_lt_trans i k j,
  text_lt_trans k j i,
  text_lt_trans j k i,
  text_lt-total i j,
  text_lt-total i k,
  insert_entry_comm k j v w l d,
)

-- Values that differ in the order in which their objects list their keys, at any depth.
mutual
  pub data Alike : Json → Json → Type 0 where
    same : (v : Json) → Alike v v
    items : {xs ys : Items} → AlikeItems xs ys → Alike (Json.array xs) (Json.array ys)
    fields : {fs gs : Fields} → AlikeFields fs gs → Alike (Json.object fs) (Json.object gs)

  pub data AlikeItems : Items → Items → Type 0 where
    none_left : AlikeItems nil nil
    item :
        {v w : Json} {xs ys : Items}
        → Alike v w
        → AlikeItems xs ys
        → AlikeItems (cons v xs) (cons w ys)

  pub data AlikeFields : Fields → Fields → Type 0 where
    no_more : AlikeFields end end
    entry :
        {v w : Json} {fs gs : Fields} (k : Text)
        → Alike v w
        → AlikeFields fs gs
        → AlikeFields (field k v fs) (field k w gs)
    swap :
        (j k : Text) (v w : Json) (fs : Fields)
        → text_eq j k ≡ false
        → AlikeFields (field j v (field k w fs)) (field k w (field j v fs))
    after : {fs gs hs : Fields} → AlikeFields fs gs → AlikeFields gs hs → AlikeFields fs hs

mutual
  unfolding canonicalize

  canonicalize-Alike : {v w : Json} → Alike v w → canonicalize v ≡ canonicalize w
  canonicalize-Alike (same v) = refl
  canonicalize-Alike (items a) = rw (canonical_items-Alike a) refl
  canonicalize-Alike (fields a) = rw (sort_entries-Alike a) refl

  canonical_items-Alike :
      {xs ys : Items} → AlikeItems xs ys → canonical_items xs ≡ canonical_items ys
  canonical_items-Alike none_left = refl
  canonical_items-Alike (item a b) = rw (canonicalize-Alike a, canonical_items-Alike b) refl

  sort_entries-Alike :
      {fs gs : Fields}
      → AlikeFields fs gs
      → sort_entries (canonical_entries fs) ≡ sort_entries (canonical_entries gs)
  sort_entries-Alike no_more = refl
  sort_entries-Alike (entry k a b) = rw (canonicalize-Alike a, sort_entries-Alike b) refl
  sort_entries-Alike (swap j k v w fs d) = insert_entry_comm j k _ _ _ d
  sort_entries-Alike (after a b) = sort_entries-Alike a ∙ sort_entries-Alike b

-- The fingerprint of a payload does not depend on the order in which its objects, at any depth,
-- list their keys.
pub payload_fingerprint-Alike :
    (platform : Platform) {v w : Json}
    → Alike v w
    → payload_fingerprint platform v ≡ payload_fingerprint platform w
unfolding payload_fingerprint
payload_fingerprint-Alike platform a = ap platform.sha256_hex (canonicalize-Alike a)
