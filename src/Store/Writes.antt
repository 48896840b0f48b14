-- ===== src/Store/Writes.antt =====
-- The methods of SqliteStore that insert and update rows, and the tables' invariant.
use openchronicle_mcp.Base.{
  ℕ, ◌≡◌, refl, Bool, true, not, Option, none, some, List, [], ◌∷◌, All, inl, inr, Bool-cases,
  String, str_eq, All-append, All-imp, ◌∙◌,
}
use openchronicle_mcp.Table.{has, modify, IsUnique-append, has-modify, IsUnique-modify}
use openchronicle_mcp.Domain.{Project, MemoryItem, Json, integrity, memory_not_found}
use openchronicle_mcp.Store.Conn.{
  ProjectRow, MemoryRow, EmbeddingRow, Db, set_db, project_key, memory_key,
}
use openchronicle_mcp.Store.Projects.{
  insert_project, add_project, update_project, set_project, get_project,
}
use openchronicle_mcp.Store.Memory.{
  insert_memory, add_memory, change_memory, set_pinned, update_memory, with_pin, edit, has_project,
  get_memory,
}
use openchronicle_mcp.Store.Keeps.{Keeps, Keeps-test, Keeps-set_db, keeps_rules}
use openchronicle_mcp.Store.Valid.{
  IsValid, HasProject, HasMemory, HasProject-append, HasMemory-append,
}

insert_project-IsValid : (r : ProjectRow) → Keeps IsValid (insert_project r)
unfolding insert_project
insert_project-IsValid r =
    Keeps-test (λ s. has project_key r.id s.projects) integrity _
      λ s free b v. record {
        saved = refl;
        depth = refl;
        kept = record {
          projects_unique = IsUnique-append project_key s.projects r v.projects_unique free;
          memories_unique = v.memories_unique;
          embeddings_unique = v.embeddings_unique;
          projects_met = HasProject-append s.projects r s.memories v.projects_met;
          memories_met = v.memories_met;
        };
      }

pub add_project-IsValid : (p : Project) → Keeps IsValid (add_project p)
unfolding add_project
add_project-IsValid p = search (keeps_rules, insert_project-IsValid)

insert_memory-IsValid : (r : MemoryRow) → Keeps IsValid (insert_memory r)
unfolding insert_memory
insert_memory-IsValid r =
    Keeps-test (λ s. has memory_key r.id s.memories) integrity _
      λ s free b v. elim (Bool-cases (has_project s.projects r.project_id)) [
        | inr missing ↦ rw missing (record { saved = refl; depth = refl; kept = v })
        | inl met ↦ rw met (record {
          saved = refl;
          depth = refl;
          kept = record {
            projects_unique = v.projects_unique;
            memories_unique = IsUnique-append memory_key s.memories r v.memories_unique free;
            embeddings_unique = v.embeddings_unique;
            projects_met =
                All-append (HasProject s.projects) s.memories (r ∷ []) v.projects_met (met, tt);
            memories_met = HasMemory-append s.memories r s.embeddings v.memories_met;
          };
        })
      ]

pub add_memory-IsValid : (item : MemoryItem) → Keeps IsValid (add_memory item)
unfolding add_memory
add_memory-IsValid item = search (keeps_rules, insert_memory-IsValid)

-- An update of a row that keeps its key and its project.
pub record KeepsRefs (f : MemoryRow → MemoryRow) : Type 0 where
  pub same_id : (r : MemoryRow) → (f r).id ≡ r.id
  pub same_project : (r : MemoryRow) → (f r).project_id ≡ r.project_id

module _ (id : String) (f : MemoryRow → MemoryRow) (k : KeepsRefs f) where
  HasProject-modify :
      (ps : List ProjectRow) (ms : List MemoryRow)
      → All (HasProject ps) ms
      → All (HasProject ps) (modify memory_key id f ms)
  HasProject-modify ps [] h = tt
  HasProject-modify ps (m ∷ ms) h = elim (Bool-cases (str_eq m.id id)) [
    | inl hit ↦ rw hit (rw (k.same_project m) h.0, HasProject-modify ps ms h.1)
    | inr miss ↦ rw miss (h.0, HasProject-modify ps ms h.1)
  ]

  HasMemory-modify :
      (ms : List MemoryRow) (es : List EmbeddingRow)
      → All (HasMemory ms) es
      → All (HasMemory (modify memory_key id f ms)) es
  HasMemory-modify ms es =
      All-imp (HasMemory ms) (HasMemory (modify memory_key id f ms))
        (λ e h. has-modify memory_key f k.same_id e.memory_id id ms ∙ h) es

  change_memory-IsValid : Keeps IsValid (change_memory id f)
  unfolding change_memory
  change_memory-IsValid =
      Keeps-test (λ s. not (has memory_key id s.memories)) memory_not_found _
        λ s found b v. record {
          saved = refl;
          depth = refl;
          kept = record {
            projects_unique = v.projects_unique;
            memories_unique =
                IsUnique-modify memory_key f k.same_id id s.memories v.memories_unique;
            embeddings_unique = v.embeddings_unique;
            projects_met = HasProject-modify s.projects s.memories v.projects_met;
            memories_met = HasMemory-modify s.memories s.embeddings v.memories_met;
          };
        }

pub set_pinned-IsValid : (id : String) (pinned : Bool) → Keeps IsValid (set_pinned id pinned)
unfolding set_pinned
set_pinned-IsValid id pinned =
    change_memory-IsValid id (with_pin pinned)
      (record { same_id = λ r. refl; same_project = λ r. refl })

get_memory-Keeps : {P : Db → Type 0} (id : String) → Keeps P (get_memory id)
unfolding get_memory
get_memory-Keeps id = search keeps_rules

edit-KeepsRefs :
    (now : ℕ) (content : Option String) (tags : Option (List String))
    → KeepsRefs (edit now content tags)
edit-KeepsRefs now content tags = record { same_id = λ r. refl; same_project = λ r. refl }

pub update_memory-IsValid :
    (now : ℕ) (id : String) (content : Option String) (tags : Option (List String))
    → Keeps IsValid (update_memory now id content tags)
unfolding update_memory
update_memory-IsValid now id content tags =
    search (keeps_rules, change_memory-IsValid, edit-KeepsRefs, get_memory-Keeps)

set_project-id :
    (name : Option String) (metadata : Option Json) (r : ProjectRow)
    → (set_project name metadata r).id ≡ r.id
set_project-id none none r = refl
set_project-id none (some m) r = refl
set_project-id (some n) none r = refl
set_project-id (some n) (some m) r = refl

module _ (id : String) (f : ProjectRow → ProjectRow)
    (same : (r : ProjectRow) → (f r).id ≡ r.id) where
  has_project-modify :
      (ps : List ProjectRow) (o : Option String)
      → has_project ps o ≡ true
      → has_project (modify project_key id f ps) o ≡ true
  has_project-modify ps none h = refl
  has_project-modify ps (some p) h = has-modify project_key f same p id ps ∙ h

  modify_projects-IsValid :
      Keeps IsValid (set_db (λ d. record d { projects = modify project_key id f d.projects }))
  modify_projects-IsValid = Keeps-set_db _ λ d v. record {
    projects_unique = IsUnique-modify project_key f same id d.projects v.projects_unique;
    memories_unique = v.memories_unique;
    embeddings_unique = v.embeddings_unique;
    projects_met =
        All-imp (HasProject d.projects) (HasProject (modify project_key id f d.projects))
          (λ m. has_project-modify d.projects m.project_id) d.memories v.projects_met;
    memories_met = v.memories_met;
  }

get_project-Keeps : {P : Db → Type 0} (id : String) → Keeps P (get_project id)
unfolding get_project
get_project-Keeps id = search keeps_rules

pub update_project-IsValid :
    (id : String) (name : Option String) (metadata : Option Json)
    → Keeps IsValid (update_project id name metadata)
unfolding update_project
update_project-IsValid id name metadata =
    search (keeps_rules, modify_projects-IsValid, set_project-id, get_project-Keeps) depth 9
