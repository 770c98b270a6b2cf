-- ===== src/Persistence/Keys.antt =====
-- packages/persistence/src/keys.ts: every key of the table.
pub mod Apart
pub mod Injective
pub mod Chrono
pub mod Shards
use api_proxy.Base.{
  ℕ, zero, suc, ◌+◌, ◌*◌, ◌-◌, ◌%◌, ◌≡◌, refl, Bool, true, false, ◌&&◌, Text, codes, text_eq,
  decimal, text_eq_refl, text_eq→eq, List, [], ◌∷◌, ◌++◌, length, arith, append_cancel,
}
use api_proxy.Contracts.Workflow.{StepId}
use api_proxy.Idempotency.{step_name}

pub record TableKey : Type 0 where
  pub pk : Text
  pub sk : Text

unfoldable pub same_key : TableKey → TableKey → Bool
same_key a b = text_eq a.pk b.pk && text_eq a.sk b.sk

unfoldable pub workflow_key : Text → TableKey
workflow_key request_id = record { pk = codes "REQ#" ++ request_id; sk = codes "WORKFLOW" }

unfoldable pub idempotency_key_item : Text → Text → TableKey
idempotency_key_item tenant_id idempotency_key = record {
  pk = codes "IDEM#" ++ (tenant_id ++ (codes "#" ++ idempotency_key));
  sk = codes "IDEM";
}

unfoldable pub step_key : Text → StepId → TableKey
unfolding step_name
step_key request_id step_id = record {
  pk = codes "REQ#" ++ request_id;
  sk = codes "STEP#" ++ step_name step_id;
}

unfoldable pub outbox_key : Text → Text → TableKey
outbox_key request_id event_id = record {
  pk = codes "REQ#" ++ request_id;
  sk = codes "OUTBOX#" ++ event_id;
}

abbrev pub pending_shards : ℕ
pending_shards = 10

-- The loop over the characters, from the hash so far.
unfoldable pub shard_loop : ℕ → Text → ℕ
shard_loop hash [] = hash
shard_loop hash (c ∷ rest) = shard_loop ((hash * 31 + c) % pending_shards) rest

unfoldable pub shard_of : Text → ℕ
unfolding shard_loop
shard_of value = shard_loop 0 value

abbrev pub replicate : ℕ → ℕ → Text
replicate zero c = []
replicate (suc n) c = c ∷ replicate n c

-- `padStart(width, "0")`
unfoldable pub pad_start : ℕ → Text → Text
pad_start width t = replicate (width - length t) 48 ++ t

unfoldable pub chrono_prefix : ℕ → Text
unfolding pad_start
chrono_prefix epoch_millis = pad_start 13 (decimal epoch_millis)

-- The two attributes of a sparse index.
pub record IndexKeys : Type 0 where
  pub index_pk : Text
  pub index_sk : Text

unfoldable pub pending_outbox_index_keys : Text → Text → ℕ → IndexKeys
pending_outbox_index_keys request_id event_id created_at = record {
  index_pk = codes "OUTBOX_PENDING#" ++ decimal (shard_of request_id);
  index_sk = chrono_prefix created_at ++ (codes "#" ++ event_id);
}

unfoldable pub processing_index_keys : Text → ℕ → IndexKeys
processing_index_keys request_id deadline_at = record {
  index_pk = codes "WF_PROCESSING#" ++ decimal (shard_of request_id);
  index_sk = chrono_prefix deadline_at ++ (codes "#" ++ request_id);
}

unfoldable pub shard_keys : Text → ℕ → ℕ → List Text
shard_keys prefix zero index = []
shard_keys prefix (suc left) index = (prefix ++ decimal index) ∷ shard_keys prefix left (suc index)

unfoldable pub pending_outbox_shard_keys : List Text
unfolding shard_keys
pending_outbox_shard_keys = shard_keys (codes "OUTBOX_PENDING#") pending_shards 0

unfoldable pub processing_shard_keys : List Text
unfolding shard_keys
processing_shard_keys = shard_keys (codes "WF_PROCESSING#") pending_shards 0
