-- ===== src/Tests/Keys.antt =====
-- The index keys at two times and one request.
use api_proxy.Base.{text_lt, ◌≡◌, true, codes, ◌++◌, text_eq, any, arith}
use api_proxy.Persistence.Keys.{
  chrono_prefix, pending_outbox_index_keys, processing_index_keys, pending_outbox_shard_keys,
  processing_shard_keys,
}
use api_proxy.Persistence.Keys.Chrono.{chrono_prefix-ordered}
use api_proxy.Persistence.Keys.Shards.{shards_complete}
use api_proxy.Tests.Repository.{request}

chrono_prefix-ordered_example :
    text_lt (chrono_prefix 999 ++ (codes "#" ++ codes "e")) (chrono_prefix 1000) ≡ true
chrono_prefix-ordered_example =
    chrono_prefix-ordered 999 1000 (codes "e") (omega arith) (omega arith)

shards_complete_example :
    (any
        (text_eq (pending_outbox_index_keys request (codes "e") 1000).index_pk)
        pending_outbox_shard_keys
      ≡ true)
    × (any (text_eq (processing_index_keys request 1000).index_pk) processing_shard_keys ≡ true)
shards_complete_example = shards_complete request (codes "e") 1000
