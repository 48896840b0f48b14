-- ===== src/Export/RoundTrip.antt =====
-- An export read back by import_memory.py into an empty database.
use openchronicle_mcp.Base.{
  ℕ, ◌≤◌, ◌≡◌, refl, Bool, true, false, Option, none, some, List, [], ◌∷◌, map, String, arith,
  str_eq, contains, All, All-imp, All-filter, All-sort_by, sort_by, filter-All, count, inl, inr,
  Bool-cases,
}
use openchronicle_mcp.Table.{IsUnique-filter, IsUnique-sort_by}
use openchronicle_mcp.Domain.{Result, ok, DateTime, aware, Fields}
use openchronicle_mcp.Domain.Values.{obj}
use openchronicle_mcp.Store.Conn.{Db, Store, project_key, memory_key, transaction}
use openchronicle_mcp.Store.Projects.{list_projects, project_newer}
use openchronicle_mcp.Store.Memory.{list_memory, pinned_then_newer}
use openchronicle_mcp.Store.Transaction.{idle}
use openchronicle_mcp.Import.Validate.{RawMemory, Envelope, raw_project_id, validate_envelope}
use openchronicle_mcp.Import.Apply.{Counts, execute, import_rows, refuse_nonempty, valid_mode}
use openchronicle_mcp.Import.Sound.{validate_envelope-GoodEnvelope}
use openchronicle_mcp.Import.Rows.{is_collision}
use openchronicle_mcp.Import.Union.{counted, united, transaction-import_rows}
use openchronicle_mcp.Export.Build.{export_memory}
use openchronicle_mcp.Domain.Time.{InRange}
use openchronicle_mcp.Export.Checked.{
  IsPortableProject, IsPortableMemory, raw_project, raw_memory, validate_projects-payload,
  validate_memories-payload, AreNew-nil,
}
use openchronicle_mcp.Export.Rows.{
  is_content, exported_memories, exported_projects, envelope, export_memory-envelope, IsPortable,
  known-exported, map-project_row, map-memory_row,
}

abbrev pub no_tables : Db
no_tables = record { projects = []; memories = []; embeddings = [] }

-- An import of the rows of `d` into an empty database.
pub record Restored (d : Db) (r : Result Counts × Store) : Type 0 where
  pub counts : Counts
  pub returned : r.0 ≡ ok counts
  pub projects_kept : counts.projects_skipped ≡ 0
  pub memories_kept : counts.memory_skipped ≡ 0
  pub tables :
      r.1.db
      ≡ record { projects = exported_projects d; memories = exported_memories d; embeddings = [] }
  pub closed : r.1.saved ≡ []

count-never : {A : Type 0} (p : A → Bool) (xs : List A) → ((x : A) → p x ≡ false) → count p xs ≡ 0
count-never p [] h = refl
count-never p (x ∷ xs) h = ground (arith, h x, count-never p xs h)

no_collision : (m : RawMemory) → is_collision [] m ≡ false
no_collision m = ground arith

module _ (iso : String → Option DateTime) (isoformat : DateTime → String)
    (inverse : (t : ℕ) → InRange t → iso (isoformat (aware t)) ≡ some (aware t)) (now : DateTime)
    (d : Db) (p : IsPortable d) where
  abbrev checked : Envelope
  checked = record {
    projects = map raw_project (exported_projects d);
    memory_items = map raw_memory (exported_memories d);
  }

  projects_portable : All IsPortableProject (exported_projects d)
  projects_portable = All-sort_by project_newer IsPortableProject d.projects p.projects

  memories_portable : All IsPortableMemory (exported_memories d)
  memories_portable =
      All-filter IsPortableMemory is_content (sort_by pinned_then_newer d.memories)
        (All-sort_by pinned_then_newer IsPortableMemory d.memories p.memories)

  envelope_accepted : validate_envelope iso (envelope isoformat now d) [] ≡ ok checked
  unfolding validate_envelope
  envelope_accepted =
      rw
        (
          validate_projects-payload iso isoformat inverse [] (exported_projects d) projects_portable
              (IsUnique-sort_by project_key project_newer d.projects p.valid.projects_unique)
              (AreNew-nil project_key (exported_projects d)),
          validate_memories-payload iso isoformat inverse
              (map raw_project_id (map raw_project (exported_projects d))) [] (exported_memories d)
              memories_portable
              (All-filter _ is_content (sort_by pinned_then_newer d.memories) (
                All-sort_by pinned_then_newer _ d.memories
                  (All-imp _ _ (known-exported d) d.memories p.valid.projects_met)))
              (IsUnique-filter memory_key is_content (sort_by pinned_then_newer d.memories)
                (IsUnique-sort_by memory_key pinned_then_newer d.memories p.valid.memories_unique))
              (AreNew-nil memory_key (exported_memories d)),
        )
        refl

  restored_tables :
      united checked no_tables
      ≡ record { projects = exported_projects d; memories = exported_memories d; embeddings = [] }
  restored_tables i = record {
    projects = map-project_row (exported_projects d) projects_portable i;
    memories =
        map-memory_row (exported_memories d) memories_portable
          (filter-All is_content (sort_by pinned_then_newer d.memories)) i;
    embeddings = [];
  }

  module _ (mode : String) (valid : valid_mode mode ≡ true) (b : ℕ) (free : b ≤ 3) where
    execute-transaction :
        execute iso (obj (envelope isoformat now d)) mode (idle no_tables 0 b)
        ≡ transaction (import_rows [] [] checked) (idle no_tables 0 b)
    unfolding execute refuse_nonempty list_projects list_memory
    execute-transaction = elim (Bool-cases (str_eq mode "replace")) [
      | inl replacing ↦ rw valid (rw replacing (rw envelope_accepted refl))
      | inr merging ↦ rw valid (rw merging (rw envelope_accepted refl))
    ]

    execute-Restored :
        Restored d (execute iso (obj (envelope isoformat now d)) mode (idle no_tables 0 b))
    execute-Restored =
        rw
          (
            execute-transaction,
            transaction-import_rows checked (idle no_tables 0 b) refl free (
                validate_envelope-GoodEnvelope iso (envelope isoformat now d) [] checked
                  envelope_accepted),
          )
          (record {
            counts = counted checked no_tables;
            returned = refl;
            projects_kept =
                omega (arith, count-never (λ r. contains [] r.id) checked.projects (λ r. refl));
            memories_kept =
                omega (arith, count-never (is_collision []) checked.memory_items no_collision);
            tables = restored_tables;
            closed = refl;
          })

-- Let `isoformat` and `fromisoformat` be inverse on the instants that datetime holds. Then exporting
-- a store whose rows meet the import's checks returns an envelope and leaves the store as it was,
-- and importing that envelope into an empty database, in either mode and with the lock granted
-- within the four attempts, returns counts that skip nothing and leaves exactly the exported rows:
-- all projects, and all memories but the watermarks.
pub export_memory-execute :
    (iso : String → Option DateTime) (isoformat : DateTime → String)
    (inverse : (t : ℕ) → InRange t → iso (isoformat (aware t)) ≡ some (aware t)) (now : DateTime)
    (s : Store)
    → IsPortable s.db
    → (mode : String) → valid_mode mode ≡ true
    → (b : ℕ) → b ≤ 3
    → (payload : Fields) × (export_memory isoformat now none s ≡ (ok payload, s))
      × Restored s.db (execute iso (obj payload) mode (idle no_tables 0 b))
export_memory-execute iso isoformat inverse now s p mode valid b free = (
  envelope isoformat now s.db,
  export_memory-envelope isoformat now s,
  execute-Restored iso isoformat inverse now s.db p mode valid b free,
)
