-- ===== src/Store/Valid.antt =====
-- The invariant of the tables: the keys are unique and the references are met.
use openchronicle_mcp.Base.{
  ◌≡◌, refl, Bool, true, not, Option, none, some, List, [], ◌∷◌, ◌++◌, arith, All, filter, String,
}
use openchronicle_mcp.Table.{has, IsUnique, has-append, has-filter_split}
use openchronicle_mcp.Store.Conn.{
  ProjectRow, MemoryRow, EmbeddingRow, Db, project_key, memory_key, embedding_key,
}
use openchronicle_mcp.Store.Memory.{has_project}

abbrev pub HasProject : List ProjectRow → MemoryRow → Type 0
HasProject ps m = has_project ps m.project_id ≡ true

abbrev pub HasMemory : List MemoryRow → EmbeddingRow → Type 0
HasMemory ms e = has memory_key e.memory_id ms ≡ true

pub record IsValid (d : Db) : Type 0 where
  pub projects_unique : IsUnique project_key d.projects
  pub memories_unique : IsUnique memory_key d.memories
  pub embeddings_unique : IsUnique embedding_key d.embeddings
  pub projects_met : All (HasProject d.projects) d.memories
  pub memories_met : All (HasMemory d.memories) d.embeddings

-- A project more breaks no reference.
pub HasProject-append :
    (ps : List ProjectRow) (p : ProjectRow) (ms : List MemoryRow)
    → All (HasProject ps) ms
    → All (HasProject (ps ++ p ∷ [])) ms
HasProject-append ps p [] h = tt
HasProject-append ps p (m ∷ ms) h = (one m.project_id h.0, HasProject-append ps p ms h.1)
  where
    one : (o : Option String) → has_project ps o ≡ true → has_project (ps ++ p ∷ []) o ≡ true
    one none e = refl
    one (some q) e = ground (arith, has-append project_key q ps (p ∷ []))

pub HasMemory-append :
    (ms : List MemoryRow) (m : MemoryRow) (es : List EmbeddingRow)
    → All (HasMemory ms) es
    → All (HasMemory (ms ++ m ∷ [])) es
HasMemory-append ms m [] h = tt
HasMemory-append ms m (e ∷ es) h =
    ground (arith, has-append memory_key e.memory_id ms (m ∷ []), HasMemory-append ms m es h.1)

module _ (p : MemoryRow → Bool) (ms : List MemoryRow) where
  -- What the cascade leaves refers to rows that are left.
  pub HasMemory-cascade :
      (es : List EmbeddingRow)
      → All (HasMemory ms) es
      → All
          (HasMemory (filter (λ r. not (p r)) ms))
          (filter (λ e. not (has memory_key e.memory_id (filter p ms))) es)
  HasMemory-cascade [] h = tt
  HasMemory-cascade (e ∷ es) h =
      ground (arith, has-filter_split memory_key p e.memory_id ms, HasMemory-cascade es h.1)
