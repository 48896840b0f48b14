-- ===== src/Service/Port.antt =====
-- What EmbeddingService sees around it: the provider behind EmbeddingPort, the other threads that
-- write to the store while a provider call is in flight, and its own counters.
use openchronicle_mcp.Base.{
  ℕ, ◌+◌, Bool, true, false, ◌&&◌, Option, none, some, List, [], String, str_eq, opt_str_eq,
}
use openchronicle_mcp.Table.{find}
use openchronicle_mcp.Domain.{Error, Result, content_too_long}
use openchronicle_mcp.Store.Conn.{Status, embedded, EmbeddingRow, Store, embedding_key}
use openchronicle_mcp.Store.Conn
use openchronicle_mcp.Store.Embedding.{Stamp, save_embedding}

-- The answers may differ from call to call, so they take the number of calls made before. The
-- provider's name, model and settings are fixed in a process.
pub record Port : Type 0 where
  pub provider_name : String
  pub model_name : String
  pub settings_fingerprint : String
  pub embed : ℕ → String → Result (List ℕ)
  pub embed_batch : ℕ → List String → Result (List (List ℕ))

pub record World : Type 0 where
  pub port : Port
  pub hash_content : String → String
  pub clock : ℕ → ℕ
  pub meanwhile : ℕ → Store → Store

-- RevisionSnapshot.
pub record Snapshot : Type 0 where
  pub known : Bool
  pub value : Option String

-- `reconciled_revision` is `none` until a backfill of the whole corpus completes.
pub record Service : Type 0 where
  pub store : Store
  pub calls : ℕ
  pub failure_count : ℕ
  pub last_failure_op : Option String
  pub reconciled_revision : Option (Option String)

-- `_record_failure` and `_record_success`.
abbrev pub record_failure : String → Service → Service
record_failure op sv = record sv { failure_count = sv.failure_count + 1; last_failure_op = some op }

abbrev pub record_success : Service → Service
record_success sv = record sv { failure_count = 0; last_failure_op = none }

-- `_is_content_too_long`.
abbrev pub is_content_too_long : Error → Bool
is_content_too_long content_too_long = true
is_content_too_long _ = false

abbrev pub answered : World → Service → Service
answered w sv = record sv { store = w.meanwhile sv.calls sv.store; calls = sv.calls + 1 }

-- `_embed_single` and `_embed_batch`, without their metrics.
unfoldable pub embed_single : World → String → Service → Result (List ℕ) × Service
embed_single w content sv = (w.port.embed sv.calls content, answered w sv)

unfoldable pub embed_batch : World → List String → Service → Result (List (List ℕ)) × Service
embed_batch w contents sv = (w.port.embed_batch sv.calls contents, answered w sv)

abbrev pub stamp : World → Option String → String → Status → Stamp
stamp w revision content status = record {
  model = w.port.model_name;
  provider = w.port.provider_name;
  content_hash = w.hash_content content;
  model_revision = revision;
  settings_fingerprint = w.port.settings_fingerprint;
  status = status;
}

-- The call of `save_embedding` with the space's identity and the hash of what was embedded.
unfoldable pub publish :
    World → Option String → String → String → List ℕ → Status → Service → Result Bool × Service
publish w revision id content vec status sv =
    let (r, s) =
      save_embedding w.hash_content (w.clock sv.calls) id vec (stamp w revision content status)
        sv.store in
    (r, record sv { store = s })

unfoldable pub write_tombstone :
    World → Option String → String → String → Service → Result Bool × Service
write_tombstone w revision id content = publish w revision id content [] Conn.content_too_long

-- `_is_current`.
abbrev pub names_space : World → Option String → String → EmbeddingRow → Bool
names_space w revision content e =
    str_eq e.provider w.port.provider_name
    && str_eq e.model w.port.model_name
    && str_eq e.settings_fingerprint w.port.settings_fingerprint
    && opt_str_eq e.model_revision revision
    && str_eq e.content_hash (w.hash_content content)

abbrev pub current_row : World → Option String → String → Option EmbeddingRow → Bool
current_row w revision content none = false
current_row w revision content (some e) = names_space w revision content e

unfoldable pub is_current : World → Option String → Store → String → String → Bool
is_current w revision s id content =
    current_row w revision content (find embedding_key id s.embeddings)
