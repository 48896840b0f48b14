-- ===== src/Store/Deletes.antt =====
-- The methods of SqliteStore that delete rows, and those that write embeddings, and the tables'
-- invariant.
use openchronicle_mcp.Base.{
  ℕ, ◌≡◌, refl, Bool, true, false, not, Option, none, some, List, [], ◌∷◌, arith, All, inl, inr,
  Bool-cases, filter, eq_iff, String, str_eq, All-append, All-filter, ◌∙◌, any, opt_str_eq,
}
use openchronicle_mcp.Table.{
  find, has, modify, IsUnique, IsUnique-append, IsUnique-filter, IsUnique-modify,
}
use openchronicle_mcp.Domain.{integrity}
use openchronicle_mcp.Store.Conn.{
  ProjectRow, MemoryRow, EmbeddingRow, Db, project_key, memory_key, embedding_key,
}
use openchronicle_mcp.Store.Projects.{
  in_project, delete_memories, delete_project_row, delete_project_body, delete_project,
}
use openchronicle_mcp.Store.Memory.{has_project, delete_memory_body, delete_memory}
use openchronicle_mcp.Store.Embedding.{
  Stamp, embedding_row, upsert, unmoved, save_embedding, delete_embedding,
}
use openchronicle_mcp.Store.Keeps.{Keeps, Keeps-test, Keeps-set_db, keeps_rules}
use openchronicle_mcp.Store.Valid.{IsValid, HasProject, HasMemory, HasMemory-cascade}

delete_memories-IsValid :
    (p : MemoryRow → Bool) (d : Db) → IsValid d → IsValid (delete_memories p d)
delete_memories-IsValid p d v = record {
  projects_unique = v.projects_unique;
  memories_unique = IsUnique-filter memory_key (λ r. not (p r)) d.memories v.memories_unique;
  embeddings_unique =
      IsUnique-filter embedding_key (λ e. not (has memory_key e.memory_id (filter p d.memories)))
        d.embeddings v.embeddings_unique;
  projects_met = All-filter (HasProject d.projects) (λ r. not (p r)) d.memories v.projects_met;
  memories_met = HasMemory-cascade p d.memories d.embeddings v.memories_met;
}

-- Without a reference to the project, its row can go.
module _ (id : String) where
  without : List ProjectRow → List ProjectRow
  without ps = filter (λ r. not (str_eq r.id id)) ps

  has-without :
      (q : String) (ps : List ProjectRow)
      → str_eq q id ≡ false
      → has project_key q (without ps) ≡ has project_key q ps
  unfolding without
  has-without q [] h = refl
  has-without q (p ∷ ps) h =
      ground (arith, eq_iff p.id id, eq_iff p.id q, eq_iff q id, has-without q ps h)

  has_project-without :
      (ps : List ProjectRow) (o : Option String)
      → opt_str_eq o (some id) ≡ false
      → has_project ps o ≡ true
      → has_project (without ps) o ≡ true
  has_project-without ps none f h = refl
  has_project-without ps (some q) f h = has-without q ps f ∙ h

  projects_met-without :
      (ps : List ProjectRow) (ms : List MemoryRow)
      → any (in_project id) ms ≡ false
      → All (HasProject ps) ms
      → All (HasProject (without ps)) ms
  projects_met-without ps [] f h = tt
  projects_met-without ps (m ∷ ms) f h =
      ground (arith, has_project-without ps m.project_id, projects_met-without ps ms)

  delete_project_row-IsValid : Keeps IsValid (delete_project_row id)
  unfolding delete_project_row without
  delete_project_row-IsValid =
      Keeps-test (λ s. any (in_project id) s.memories) integrity _
        λ s free b v. record {
          saved = refl;
          depth = refl;
          kept = record {
            projects_unique =
                IsUnique-filter project_key (λ r. not (str_eq r.id id)) s.projects
                  v.projects_unique;
            memories_unique = v.memories_unique;
            embeddings_unique = v.embeddings_unique;
            projects_met = projects_met-without s.projects s.memories free v.projects_met;
            memories_met = v.memories_met;
          };
        }

  delete_project_body-IsValid : Keeps IsValid (delete_project_body id)
  unfolding delete_project_body
  delete_project_body-IsValid =
      search (keeps_rules, delete_memories-IsValid, delete_project_row-IsValid) depth 12

  pub delete_project-IsValid : Keeps IsValid (delete_project id)
  unfolding delete_project
  delete_project-IsValid = search (keeps_rules, delete_project_body-IsValid)

  delete_memory_body-IsValid : Keeps IsValid (delete_memory_body id)
  unfolding delete_memory_body
  delete_memory_body-IsValid = search (keeps_rules, delete_memories-IsValid) depth 9

  pub delete_memory-IsValid : Keeps IsValid (delete_memory id)
  unfolding delete_memory
  delete_memory-IsValid = search (keeps_rules, delete_memory_body-IsValid)

  pub delete_embedding-IsValid : Keeps IsValid (delete_embedding id)
  unfolding delete_embedding
  delete_embedding-IsValid = Keeps-set_db _ λ d v. record {
    projects_unique = v.projects_unique;
    memories_unique = v.memories_unique;
    embeddings_unique =
        IsUnique-filter embedding_key (λ e. not (str_eq e.memory_id id)) d.embeddings
          v.embeddings_unique;
    projects_met = v.projects_met;
    memories_met =
        All-filter (HasMemory d.memories) (λ e. not (str_eq e.memory_id id)) d.embeddings
          v.memories_met;
  }

HasMemory-upsert :
    (ms : List MemoryRow) (r : EmbeddingRow) (es : List EmbeddingRow)
    → HasMemory ms r
    → All (HasMemory ms) es
    → All (HasMemory ms) (upsert r es)
HasMemory-upsert ms r es h k = elim (Bool-cases (has embedding_key r.memory_id es)) [
  | inl old ↦ rw old (changed es k)
  | inr new ↦ rw new (All-append (HasMemory ms) es (r ∷ []) k (h, tt))
]
  where
    changed :
        (xs : List EmbeddingRow)
        → All (HasMemory ms) xs
        → All
            (HasMemory ms)
            (modify embedding_key r.memory_id (λ old. record r { memory_id = old.memory_id }) xs)
    changed [] _ = tt
    changed (x ∷ xs) kx = ground (arith, changed xs kx.1)

IsUnique-upsert :
    (r : EmbeddingRow) (es : List EmbeddingRow)
    → IsUnique embedding_key es
    → IsUnique embedding_key (upsert r es)
IsUnique-upsert r es u = elim (Bool-cases (has embedding_key r.memory_id es)) [
  | inl old ↦ rw old (IsUnique-modify embedding_key _ (λ x. refl) r.memory_id es u)
  | inr new ↦ rw new (IsUnique-append embedding_key es r u new)
]

has-unmoved :
    (hash : String → String) (wanted : String) (o : Option MemoryRow)
    → unmoved hash wanted o ≡ true
    → elim o [ none ↦ false | some _ ↦ true ] ≡ true
has-unmoved hash wanted none h = cc
has-unmoved hash wanted (some r) h = refl

pub save_embedding-IsValid :
    (hash : String → String) (now : ℕ) (id : String) (vec : List ℕ) (st : Stamp)
    → Keeps IsValid (save_embedding hash now id vec st)
unfolding save_embedding
save_embedding-IsValid hash now id vec st = record {
  at = λ s b v. elim (Bool-cases (unmoved hash st.content_hash (find memory_key id s.memories))) [
    | inr moved ↦ rw moved (record { saved = refl; depth = refl; kept = v })
    | inl there ↦
        let known = has-unmoved hash st.content_hash (find memory_key id s.memories) there in
        let r = embedding_row now id vec st in
        rw there (record {
          saved = refl;
          depth = refl;
          kept = record {
            projects_unique = v.projects_unique;
            memories_unique = v.memories_unique;
            embeddings_unique = IsUnique-upsert r s.embeddings v.embeddings_unique;
            projects_met = v.projects_met;
            memories_met = HasMemory-upsert s.memories r s.embeddings known v.memories_met;
          };
        })
  ];
}
