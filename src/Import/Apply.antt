-- ===== src/Import/Apply.antt =====
-- `execute`: the guards, and the two insertion loops in one transaction. The log lines are left out.
use openchronicle_mcp.Base.{
  ℕ, ◌+◌, Bool, true, false, not, ◌||◌, Option, none, some, List, [], ◌∷◌, String, ltb, str_eq,
  contains, if◌then◌else◌, map, codes, length,
}
use openchronicle_mcp.Domain.{
  validation, DateTime, MemoryItem, Project, Json, Fields, max_content_chars, watermark_source,
}
use openchronicle_mcp.Domain.Values.{obj, end}
use openchronicle_mcp.Store.Conn.{Action, pure, lift, raise_if, transaction, ◌>>=◌, ◌>>◌}
use openchronicle_mcp.Store.Projects.{add_project, list_projects}
use openchronicle_mcp.Store.Memory.{add_memory, list_memory, ListQuery, all_of}
use openchronicle_mcp.Import.Validate.{RawProject, RawMemory, Envelope, as_dict, validate_envelope}

pub record Counts : Type 0 where
  pub projects_added : ℕ
  pub projects_skipped : ℕ
  pub memory_added : ℕ
  pub memory_skipped : ℕ
  pub watermark_dropped : ℕ
  pub oversized_content : ℕ

abbrev or_empty : Option Fields → Json
or_empty none = obj end
or_empty (some fs) = obj fs

abbrev pub project_of : RawProject → Project
project_of p = record {
  id = p.id;
  name = p.name;
  metadata = or_empty p.metadata;
  created_at = p.created_at;
}

-- `raw.get("source") or "import"`.
abbrev or_import : Option String → String
or_import none = "import"
or_import (some s) = if str_eq s "" then "import" else s

abbrev pub item_of : RawMemory → MemoryItem
item_of m = record {
  id = m.id;
  content = m.content;
  tags = m.tags;
  created_at = m.created_at;
  pinned = m.pinned;
  project_id = m.project_id;
  source = or_import m.source;
  updated_at = m.updated_at;
}

abbrev pub is_watermark : RawMemory → Bool
is_watermark m = elim m.source [ none ↦ false | some s ↦ str_eq s watermark_source ]

abbrev pub is_oversized : RawMemory → Bool
is_oversized m = ltb max_content_chars (length (codes m.content))

abbrev pub no_counts : Counts
no_counts = record {
  projects_added = 0;
  projects_skipped = 0;
  memory_added = 0;
  memory_skipped = 0;
  watermark_dropped = 0;
  oversized_content = 0;
}

unfoldable pub import_projects : List String → Counts → List RawProject → Action Counts
import_projects existing c [] = pure c
import_projects existing c (p ∷ ps) =
    if contains existing p.id
    then import_projects existing (record c { projects_skipped = c.projects_skipped + 1 }) ps
    else (add_project (project_of p)
        >> import_projects existing (record c { projects_added = c.projects_added + 1 }) ps)

unfoldable pub import_memories : List String → Counts → List RawMemory → Action Counts
import_memories existing c [] = pure c
import_memories existing c (m ∷ ms) =
    if is_watermark m
    then import_memories existing (record c { watermark_dropped = c.watermark_dropped + 1 }) ms
    else if contains existing m.id
    then import_memories existing (record c { memory_skipped = c.memory_skipped + 1 }) ms
    else (add_memory (item_of m)
        >> import_memories existing
            (record c {
              memory_added = c.memory_added + 1;
              oversized_content = c.oversized_content + (if is_oversized m then 1 else 0);
            })
            ms)

unfoldable pub import_rows : List String → List String → Envelope → Action Counts
import_rows project_ids memory_ids v = do
  c ← import_projects project_ids no_counts v.projects
  import_memories memory_ids c v.memory_items

abbrev is_nonempty : {A : Type 0} → List A → Bool
is_nonempty [] = false
is_nonempty (x ∷ xs) = true

abbrev pub project_id_of : Project → String
project_id_of p = p.id

abbrev pub memory_id_of : MemoryItem → String
memory_id_of m = m.id

-- `list_memory(limit=1)`.
abbrev first_of_all : ListQuery
first_of_all = record (all_of none) { limit = some 1 }

-- `mode="replace"` refuses a destination that holds anything.
unfoldable pub refuse_nonempty : Action (Unit {0})
refuse_nonempty = do
  existing_projects ← list_projects none
  existing_memory ← list_memory first_of_all
  raise_if (is_nonempty existing_projects || is_nonempty existing_memory) validation

abbrev pub valid_mode : String → Bool
valid_mode mode = str_eq mode "merge" || str_eq mode "replace"

unfoldable pub execute : (String → Option DateTime) → Json → String → Action Counts
execute iso payload mode = do
  raise_if (not (valid_mode mode)) validation
  fields ← lift (as_dict payload)
  if str_eq mode "replace" then refuse_nonempty else pure tt
  existing_projects ← list_projects none
  existing_items ← list_memory (all_of none)
  envelope ← lift (validate_envelope iso fields (map project_id_of existing_projects))
  transaction
      (import_rows (map project_id_of existing_projects) (map memory_id_of existing_items) envelope)
