-- ===== src/Persistence/Keys/Shards.antt =====
-- The shards of the two sparse indexes in keys.ts.
use api_proxy.Base.{
  ℕ, zero, suc, ◌+◌, ◌*◌, ◌%◌, ◌<◌, ◌≤◌, ◌≡◌, refl, ap, ◌∙◌, ◌⊎◌, inl, inr, Bool, true, false, ◌||◌,
  Text, codes, text_eq, text_eq_refl, decimal, [], ◌∷◌, ◌++◌, any, arith,
}
use api_proxy.Persistence.Keys.{
  pending_shards, shard_loop, shard_of, shard_keys, pending_outbox_shard_keys,
  processing_shard_keys, pending_outbox_index_keys, processing_index_keys,
}

shard_loop-below : (hash : ℕ) (t : Text) → hash < 10 → shard_loop hash t < 10
unfolding shard_loop
shard_loop-below hash [] h = h
shard_loop-below hash (c ∷ t) h =
    shard_loop-below ((hash * 31 + c) % pending_shards) t (ground arith)

shard_of-below : (t : Text) → shard_of t < 10
unfolding shard_of
shard_of-below t = shard_loop-below 0 t (omega arith)

from_first : (i n : ℕ) → i ≤ n → (i ≡ n) ⊎ (suc i ≤ n)
from_first i n h = ground arith

or_true : (b : Bool) → (b || true) ≡ true
or_true true = refl
or_true false = refl

any-shard_keys :
    (prefix : Text) (left i n : ℕ)
    → i ≤ n
    → n < i + left
    → any (text_eq (prefix ++ decimal n)) (shard_keys prefix left i) ≡ true
unfolding shard_keys
any-shard_keys prefix zero i n a b = absurd (omega arith)
any-shard_keys prefix (suc left) i n a b = elim (from_first i n a) [
  | inl e ↦ rw (e, text_eq_refl (prefix ++ decimal n)) refl
  | inr c ↦
      ap (λ x. text_eq (prefix ++ decimal n) (prefix ++ decimal i) || x)
        (any-shard_keys prefix left (suc i) n c (omega arith))
      ∙ or_true (text_eq (prefix ++ decimal n) (prefix ++ decimal i))
]

-- Whatever the identifier of the workflow, the shard under which its pending event, or itself while
-- PROCESSING, is filed is one of those that the sweeps query.
pub shards_complete :
    (request_id event_id : Text) (at : ℕ)
    → (any
          (text_eq (pending_outbox_index_keys request_id event_id at).index_pk)
          pending_outbox_shard_keys
        ≡ true)
      × (any (text_eq (processing_index_keys request_id at).index_pk) processing_shard_keys ≡ true)
unfolding pending_outbox_index_keys processing_index_keys pending_outbox_shard_keys
    processing_shard_keys
shards_complete request_id event_id at = (
  any-shard_keys (codes "OUTBOX_PENDING#") 10 0 (shard_of request_id) (omega arith)
      (shard_of-below request_id),
  any-shard_keys (codes "WF_PROCESSING#") 10 0 (shard_of request_id) (omega arith)
      (shard_of-below request_id),
)
