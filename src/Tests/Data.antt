-- ===== src/Tests/Data.antt =====
-- A store with two projects, three memories and one embedding.
use openchronicle_mcp.Base.{true, false, none, some, [], ◌∷◌, String}
use openchronicle_mcp.Domain.Values.{null}
use openchronicle_mcp.Store.Conn.{ProjectRow, MemoryRow, EmbeddingRow, embedded, Db, Store}
use openchronicle_mcp.Store.Embedding.{Stamp, Space}

abbrev pub alpha : ProjectRow
alpha = record { id = "p1"; name = "alpha"; metadata = null; created_at = 10 }

abbrev pub beta : ProjectRow
beta = record { id = "p2"; name = "beta"; metadata = null; created_at = 20 }

abbrev pub rule : MemoryRow
rule = record {
  id = "m1";
  content = "use tabs";
  tags = "style" ∷ [];
  created_at = 100;
  pinned = true;
  project_id = some "p1";
  source = "user";
  updated_at = none;
}

abbrev pub fact : MemoryRow
fact = record {
  id = "m2";
  content = "tabs are wide";
  tags = [];
  created_at = 200;
  pinned = false;
  project_id = some "p1";
  source = "user";
  updated_at = none;
}

abbrev pub other : MemoryRow
other = record {
  id = "m3";
  content = "ports";
  tags = [];
  created_at = 300;
  pinned = false;
  project_id = some "p2";
  source = "user";
  updated_at = none;
}

abbrev pub hash : String → String
hash s = s

abbrev pub stamp_of : String → Stamp
stamp_of content = record {
  model = "m";
  provider = "p";
  content_hash = content;
  model_revision = none;
  settings_fingerprint = "f";
  status = embedded;
}

abbrev pub vector_row : EmbeddingRow
vector_row = record {
  memory_id = "m1";
  embedding = 1 ∷ 2 ∷ [];
  model = "m";
  dimensions = 2;
  generated_at = 400;
  provider = "p";
  content_hash = "use tabs";
  model_revision = none;
  settings_fingerprint = "f";
  status = embedded;
}

abbrev pub space : Space
space = record {
  provider = "p";
  model = "m";
  settings_fingerprint = "f";
  model_revision = none;
  match_revision = true;
}

abbrev pub tables : Db
tables = record {
  projects = alpha ∷ beta ∷ [];
  memories = rule ∷ fact ∷ other ∷ [];
  embeddings = vector_row ∷ [];
}

abbrev pub store : Store
store = record { db = tables; saved = []; depth = 0; busy = 2 }
