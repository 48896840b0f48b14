-- ===== src/Tests/Backfills.antt =====
-- Uses of the backfill theorems, with a provider that rejects one content as too long.
use openchronicle_mcp.Base.{
  ℕ, ◌+◌, ◌≤◌, ◌≡◌, refl, false, none, some, List, [], ◌∷◌, String, map, length, str_eq,
  if◌then◌else◌,
}
use openchronicle_mcp.Table.{IsUnique}
use openchronicle_mcp.Domain.{ok, err, content_too_long, operational}
use openchronicle_mcp.Store.Conn.{Store, EmbeddingRow, memory_key}
use openchronicle_mcp.Store.Conn
use openchronicle_mcp.Store.Memory.{list_memory, row_to_memory_item}
use openchronicle_mcp.Store.Embedding.{save_embedding}
use openchronicle_mcp.Service.Port.{
  Port, World, Service, embed_single, embed_batch, publish, write_tombstone, is_current,
}
use openchronicle_mcp.Service.Backfill.{
  BackfillResult, nothing_done, backfill, backfill_chunks, backfill_listed, backfill_chunk,
  backfill_items, backfill_item, item_failed,
}
use openchronicle_mcp.Service.Rerun.{backfill-settles}
use openchronicle_mcp.Service.Counted.{handled, backfill_chunks_le}
use openchronicle_mcp.Tests.Stores.{tables-IsValid}
use openchronicle_mcp.Service.Status.{EmbeddingStatus, embedding_status}
use openchronicle_mcp.Service.Work.{verified, Overview, embedding_status-Overview}
use openchronicle_mcp.Tests.Data.{hash, tables, store, vector_row, fact, other}

abbrev port : Port
port = record {
  provider_name = "p";
  model_name = "m";
  settings_fingerprint = "f";
  embed = λ n content. if str_eq content "ports" then err content_too_long else ok (n ∷ []);
  embed_batch = λ n contents. err operational;
}

abbrev world : World
world = record { port = port; hash_content = hash; clock = λ n. n; meanwhile = λ n s. s }

abbrev service : Service
service = record {
  store = store;
  calls = 0;
  failure_count = 3;
  last_failure_op = some "search";
  reconciled_revision = none;
}

ids-IsUnique : IsUnique memory_key tables.memories
ids-IsUnique = (refl, (refl, (refl, tt)))

-- The tables once m2 is embedded and m3 is parked; m1 was current.
abbrev row : String → String → List ℕ → ℕ → Conn.Status → EmbeddingRow
row id content vec at status = record {
  memory_id = id;
  embedding = vec;
  model = "m";
  dimensions = length vec;
  generated_at = at;
  provider = "p";
  content_hash = content;
  model_revision = none;
  settings_fingerprint = "f";
  status = status;
}

abbrev service_after : Service
service_after = record {
  store = record store {
    db = record tables {
      embeddings =
          vector_row
          ∷ row "m3" "ports" [] 2 Conn.content_too_long
          ∷ row "m2" "tabs are wide" (2 ∷ []) 3 Conn.embedded
          ∷ [];
    };
  };
  calls = 3;
  failure_count = 0;
  last_failure_op = none;
  reconciled_revision = none;
}

abbrev counts_after : BackfillResult
counts_after = record { generated = 1; failed = 0; tombstoned = 1; skipped = false }

first_run : backfill world none none false service ≡ (ok counts_after, service_after)
unfolding backfill backfill_listed backfill_chunks backfill_chunk backfill_items backfill_item
    item_failed embed_single embed_batch publish write_tombstone is_current list_memory
    save_embedding
first_run = refl

backfill-settles_example :
    backfill world none none false service_after ≡ (ok nothing_done, service_after)
backfill-settles_example =
    backfill-settles world none (λ n s. refl) none false service ids-IsUnique counts_after
      service_after first_run refl

backfill_chunks_le_example :
    handled
      (backfill_chunks 2 world none
        (map row_to_memory_item (fact ∷ other ∷ []))
        (nothing_done, service)).0
    ≤ 0 + 2
backfill_chunks_le_example =
    backfill_chunks_le world none 2 (map row_to_memory_item (fact ∷ other ∷ []))
      (nothing_done, service)

-- m1 has its row, and m2 and m3 have none.
embedding_status-Overview_example :
    (r : EmbeddingStatus) × (embedding_status world (verified world none) store ≡ (ok r, store))
    × Overview world none store tables-IsValid r
embedding_status-Overview_example = embedding_status-Overview world none store tables-IsValid
