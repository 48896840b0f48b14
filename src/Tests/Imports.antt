-- ===== src/Tests/Imports.antt =====
-- Uses of the import theorems: an envelope with one new memory, one collision and one watermark.
use openchronicle_mcp.Base.{
  ◌≡◌, refl, false, Option, none, some, [], ◌∷◌, String, arith, str_eq, ◌⊎◌, if◌then◌else◌,
}
use openchronicle_mcp.Domain.{DateTime, aware, Json, Fields, ok}
use openchronicle_mcp.Domain.Values.{int, str, arr, obj, nil, cons, end, field}
use openchronicle_mcp.Import.Validate.{
  RawProject, RawMemory, Envelope, validate_envelope, validate_projects, validate_project,
  validate_memories, validate_memory, require_str, require_dt_str,
}
use openchronicle_mcp.Domain.{require_utc}
use openchronicle_mcp.Import.Apply.{execute, import_rows}
use openchronicle_mcp.Store.Conn.{transaction}
use openchronicle_mcp.Import.Sound.{GoodEnvelope, validate_envelope-GoodEnvelope}
use openchronicle_mcp.Import.Union.{
  Refused, Imported, project_ids, memory_ids, execute-union, import_rows_returns,
}
use openchronicle_mcp.Tests.Data.{store}

-- The one timestamp that this parser knows.
abbrev iso : String → Option DateTime
iso s = if str_eq s "2026-01-01T00:00:00Z" then some (aware 90_000_000_000) else none

abbrev memory_json : String → String → Json
memory_json id source = obj (
    field "id" (str id) (
      field "content" (str "text") (
        field "created_at" (str "2026-01-01T00:00:00Z")
          (field "project_id" (str "p9") (field "source" (str source) end)))))

abbrev project_json : Json
project_json = obj (
    field "id" (str "p9")
      (field "name" (str "new") (field "created_at" (str "2026-01-01T00:00:00Z") end)))

abbrev payload : Fields
payload = field "format_version" (int 1) (
    field "projects" (arr (cons project_json nil)) (
      field "memory_items"
        (arr (
          cons (memory_json "m1" "user")
            (cons (memory_json "m8" "user") (cons (memory_json "m9" "git-onboard-watermark") nil))))
        end))

execute-union_example :
    Refused store (execute iso (obj payload) "merge" store)
    ⊎ Imported iso (obj payload) store (execute iso (obj payload) "merge" store)
execute-union_example = execute-union iso (obj payload) "merge" store refl (omega arith)

abbrev raw_memory : String → String → RawMemory
raw_memory id source = record {
  id = id;
  content = "text";
  tags = [];
  pinned = false;
  project_id = some "p9";
  source = some source;
  created_at = aware 90_000_000_000;
  updated_at = none;
}

abbrev raw_project : RawProject
raw_project = record { id = "p9"; name = "new"; metadata = none; created_at = aware 90_000_000_000 }

abbrev envelope : Envelope
envelope = record {
  projects = raw_project ∷ [];
  memory_items =
      raw_memory "m1" "user"
      ∷ raw_memory "m8" "user"
      ∷ raw_memory "m9" "git-onboard-watermark"
      ∷ [];
}

accepted : validate_envelope iso payload ("p1" ∷ "p2" ∷ []) ≡ ok envelope
unfolding validate_envelope validate_projects validate_project validate_memories validate_memory
    require_str require_dt_str require_utc
accepted = refl

validate_envelope-GoodEnvelope_example : GoodEnvelope ("p1" ∷ "p2" ∷ []) envelope
validate_envelope-GoodEnvelope_example =
    validate_envelope-GoodEnvelope iso payload ("p1" ∷ "p2" ∷ []) envelope accepted

accepted_here : validate_envelope iso payload (project_ids store.db) ≡ ok envelope
unfolding validate_envelope validate_projects validate_project validate_memories validate_memory
    require_str require_dt_str require_utc
accepted_here = refl

import_rows_returns_example :
    (transaction (import_rows (project_ids store.db) (memory_ids store.db) envelope) store).0
    ≡ ok (record {
      projects_added = 1;
      projects_skipped = 0;
      memory_added = 1;
      memory_skipped = 1;
      watermark_dropped = 1;
      oversized_content = 0;
    })
import_rows_returns_example =
    import_rows_returns iso payload envelope store refl (omega arith) accepted_here
