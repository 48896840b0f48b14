-- ===== src/Export/Build.antt =====
-- `execute`: the envelope of the projects and memories, less the git-onboard watermarks.
-- `isoformat` is datetime.isoformat, and `now` is `utc_now()`.
use openchronicle_mcp.Base.{Bool, not, Option, none, some, List, [], ◌∷◌, String, str_eq, filter}
use openchronicle_mcp.Domain.{DateTime, MemoryItem, Project, Json, Items, Fields, watermark_source}
use openchronicle_mcp.Domain.Values.{null, bool, int, str, arr, obj, nil, cons, end, field}
use openchronicle_mcp.Store.Conn.{Action, pure, ◌>>=◌}
use openchronicle_mcp.Store.Projects.{list_projects, get_project}
use openchronicle_mcp.Store.Memory.{list_memory, all_of}

-- A Python list.
abbrev pub array : {A : Type 0} → (A → Json) → List A → Items
array f [] = nil
array f (x ∷ xs) = cons (f x) (array f xs)

abbrev pub str? : Option String → Json
str? none = null
str? (some s) = str s

abbrev pub not_watermark : MemoryItem → Bool
not_watermark m = not (str_eq m.source watermark_source)

abbrev pub opt_list : {A : Type 0} → Option A → List A
opt_list none = []
opt_list (some a) = a ∷ []

-- The project asked for, if there is one, or all.
abbrev exported_projects : Option String → Action (List Project)
exported_projects none = list_projects none
exported_projects (some id) = do scoped ← get_project id; pure (opt_list scoped)

module _ (isoformat : DateTime → String) where
  unfoldable pub project_payload : Project → Json
  project_payload p = obj (
      field "id" (str p.id) (
        field "name" (str p.name)
          (field "metadata" p.metadata (field "created_at" (str (isoformat p.created_at)) end))))

  abbrev pub time? : Option DateTime → Json
  time? none = null
  time? (some d) = str (isoformat d)

  unfoldable pub memory_payload : MemoryItem → Json
  memory_payload m = obj (
      field "id" (str m.id) (
        field "content" (str m.content) (
          field "tags" (arr (array str m.tags)) (
            field "pinned" (bool m.pinned) (
              field "project_id" (str? m.project_id) (
                field "source" (str m.source) (
                  field "created_at" (str (isoformat m.created_at))
                    (field "updated_at" (time? m.updated_at) end))))))))

  unfoldable pub export_memory : DateTime → Option String → Action Fields
  export_memory now project_id = do
    projects ← exported_projects project_id
    listed ← list_memory (all_of project_id)
    pure (
        field "format_version" (int 1) (
          field "exported_at" (str (isoformat now)) (
            field "projects" (arr (array project_payload projects)) (
              field "memory_items" (arr (array memory_payload (filter not_watermark listed)))
                end))))
