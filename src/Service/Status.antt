-- ===== src/Service/Status.antt =====
-- `embedding_status`. `snapshot` is the revision at hand, without a probe.
use openchronicle_mcp.Base.{ℕ, ◌+◌, none, some, ℤ, minus}
use openchronicle_mcp.Store.Conn.{Action, pure, ◌>>=◌, embedded}
use openchronicle_mcp.Store.Memory.{count_memory}
use openchronicle_mcp.Store.Embedding.{
  Space, count_embeddings, stale_embedding_counts, count_unembeddable_embeddings,
}
use openchronicle_mcp.Service.Port.{World, Snapshot}

-- The dict of counts, its `embedded` as `embedded_rows`.
pub record EmbeddingStatus : Type 0 where
  pub total_memories : ℕ
  pub embedded_rows : ℕ
  pub missing : ℤ
  pub unembeddable : ℕ
  pub space_mismatch : ℕ
  pub content_mismatch : ℕ
  pub stale : ℕ

abbrev pub active_space : World → Snapshot → Space
active_space w snapshot = record {
  provider = w.port.provider_name;
  model = w.port.model_name;
  settings_fingerprint = w.port.settings_fingerprint;
  model_revision = snapshot.value;
  match_revision = snapshot.known;
}

unfoldable pub embedding_status : World → Snapshot → Action EmbeddingStatus
embedding_status w snapshot = do
  total_memories ← count_memory none
  total_rows ← count_embeddings none
  embedded_rows ← count_embeddings (some embedded)
  buckets ← stale_embedding_counts w.hash_content (active_space w snapshot)
  unembeddable ← count_unembeddable_embeddings w.hash_content (active_space w snapshot)
  pure (record {
    total_memories = total_memories;
    embedded_rows = embedded_rows;
    missing = minus total_memories total_rows;
    unembeddable = unembeddable;
    space_mismatch = buckets.space_mismatch;
    content_mismatch = buckets.content_mismatch;
    stale = buckets.space_mismatch + buckets.content_mismatch;
  })
