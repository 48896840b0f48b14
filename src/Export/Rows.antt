-- ===== src/Export/Rows.antt =====
-- The rows that an export holds, and the rows that an import makes of them.
use openchronicle_mcp.Base.{
  ℕ, ◌≡◌, refl, ap, sym, ◌∙◌, Bool, true, not, Option, none, some, List, [], ◌∷◌, map, String,
  arith, str_eq, filter, All, sort_by,
}
use openchronicle_mcp.Table.{has-contains, has-sort_by}
use openchronicle_mcp.Domain.{ok, DateTime, Fields, watermark_source}
use openchronicle_mcp.Domain.Values.{int, str, arr, end, field}
use openchronicle_mcp.Store.Conn.{ProjectRow, MemoryRow, Db, Store, project_key}
use openchronicle_mcp.Store.Projects.{row_to_project, project_newer}
use openchronicle_mcp.Store.Memory.{aware?, row_to_memory_item, pinned_then_newer, has_project}
use openchronicle_mcp.Store.Valid.{IsValid, HasProject}
use openchronicle_mcp.Import.Validate.{known, raw_project_id}
use openchronicle_mcp.Import.Rows.{instant?, memory_row, new_memories, project_row}
use openchronicle_mcp.Import.Union.{list_projects_all, list_memory_all}
use openchronicle_mcp.Export.Build.{
  array, project_payload, memory_payload, export_memory, not_watermark,
}
use openchronicle_mcp.Export.Checked.{IsPortableProject, IsPortableMemory, raw_project, raw_memory}

abbrev pub is_content : MemoryRow → Bool
is_content r = not (str_eq r.source watermark_source)

-- The rows that an export holds, in its order.
abbrev pub exported_memories : Db → List MemoryRow
exported_memories d = filter is_content (sort_by pinned_then_newer d.memories)

abbrev pub exported_projects : Db → List ProjectRow
exported_projects d = sort_by project_newer d.projects

abbrev pub envelope : (DateTime → String) → DateTime → Db → Fields
envelope isoformat now d = field "format_version" (int 1) (
    field "exported_at" (str (isoformat now)) (
      field "projects"
        (arr (array (project_payload isoformat) (map row_to_project (exported_projects d))))
        (field "memory_items"
          (arr (array (memory_payload isoformat) (map row_to_memory_item (exported_memories d))))
          end)))

filter-map_content :
    (rows : List MemoryRow)
    → filter not_watermark (map row_to_memory_item rows)
      ≡ map row_to_memory_item (filter is_content rows)
filter-map_content [] = refl
filter-map_content (r ∷ rows) = ground (arith, filter-map_content rows)

pub export_memory-envelope :
    (isoformat : DateTime → String) (now : DateTime) (s : Store)
    → export_memory isoformat now none s ≡ (ok (envelope isoformat now s.db), s)
unfolding export_memory
export_memory-envelope isoformat now s =
    rw
      (
        list_projects_all s,
        list_memory_all s,
        filter-map_content (sort_by pinned_then_newer s.memories),
      )
      refl

-- What an import needs of a database, beyond the store's own invariant.
pub record IsPortable (d : Db) : Type 0 where
  pub valid : IsValid d
  pub projects : All IsPortableProject d.projects
  pub memories : All IsPortableMemory d.memories

ids_of_raw :
    (rows : List ProjectRow) → map raw_project_id (map raw_project rows) ≡ map project_key rows
ids_of_raw [] = refl
ids_of_raw (r ∷ rows) = ap (λ ks. r.id ∷ ks) (ids_of_raw rows)

pub known-exported :
    (d : Db) (r : MemoryRow)
    → HasProject d.projects r
    → known (map raw_project_id (map raw_project (exported_projects d))) r.project_id ≡ true
known-exported d r h = rw (ids_of_raw (exported_projects d)) (go r.project_id h)
  where
    go :
        (o : Option String)
        → has_project d.projects o ≡ true
        → known (map project_key (exported_projects d)) o ≡ true
    go none e = refl
    go (some k) e =
        sym (has-contains project_key k (exported_projects d))
        ∙ has-sort_by project_key project_newer k d.projects
        ∙ e

-- What the rows of the checked values are: the rows exported.
pub map-project_row :
    (rows : List ProjectRow)
    → All IsPortableProject rows
    → map project_row (filter (λ p. true) (map raw_project rows)) ≡ rows
map-project_row [] p = refl
map-project_row (r ∷ rows) p = λ i. same i ∷ map-project_row rows p.1 i
  where
    metadata : (project_row (raw_project r)).metadata ≡ r.metadata
    metadata = let e = p.0.metadata in rw e refl

    same : project_row (raw_project r) ≡ r
    same i = record r { metadata = metadata i }

instant?-aware? : (o : Option ℕ) → instant? (aware? o) ≡ o
instant?-aware? none = refl
instant?-aware? (some t) = refl

memory_row-raw : (r : MemoryRow) → IsPortableMemory r → memory_row (raw_memory r) ≡ r
memory_row-raw r p i = record r { source = source i; updated_at = instant?-aware? r.updated_at i }
  where
    source : (memory_row (raw_memory r)).source ≡ r.source
    source = let e = p.source in rw e refl

pub map-memory_row :
    (rows : List MemoryRow)
    → All IsPortableMemory rows
    → All (λ r. is_content r ≡ true) rows
    → map memory_row (new_memories [] (map raw_memory rows)) ≡ rows
map-memory_row [] p c = refl
map-memory_row (r ∷ rows) p c = ground (arith, memory_row-raw r p.0, map-memory_row rows p.1 c.1)
