-- ===== src/Store/Removal.antt =====
-- `delete_project` and `delete_memory` of SqliteStore.
use openchronicle_mcp.Base.{
  ℕ, ◌≤◌, ◌≡◌, refl, ap, ◌∙◌, Bool, true, false, not, List, [], ◌∷◌, String, arith, filter, length,
  any, str_eq, sym, some, opt_str_eq, eq_iff, Bool-cases, Option-cases, inl, inr, filter-ext,
}
use mathlib.Core.Path.{subst}
use openchronicle_mcp.Table.{
  find, has, IsUnique, find-filter-none, find-filter-true, find-filter-false, find-filter_key,
}
use openchronicle_mcp.Table.Join.{passes}
use openchronicle_mcp.Domain.{ok, err, memory_not_found}
use openchronicle_mcp.Store.Conn.{
  Action, MemoryRow, EmbeddingRow, Db, Store, project_key, memory_key,
}
use openchronicle_mcp.Store.Projects.{
  in_project, delete_memories, delete_project_row, delete_project_body, delete_project,
}
use openchronicle_mcp.Store.Memory.{has_id, delete_memory_body, delete_memory}
use openchronicle_mcp.Store.Transaction.{
  IsBalanced, Framed, idle, opened, transaction_commits, transaction-opened, leave_ok, leave_err,
}
use openchronicle_mcp.Store.Keeps.{Keeps, keeps_rules}

abbrev pub Anything : Db → Type 0
Anything d = Unit

pub Framed-of : {A : Type 0} (m : Action A) → Keeps Anything m → Framed m
Framed-of m k = record { saved = λ s b. (k.at s b tt).saved; depth = λ s b. (k.at s b tt).depth }

any-removed :
    (p : MemoryRow → Bool) (ms : List MemoryRow) → any p (filter (λ r. not (p r)) ms) ≡ false
any-removed p [] = refl
any-removed p (m ∷ ms) = ground (arith, any-removed p ms)

module _ (id : String) where
  delete_project_row-Keeps : Keeps Anything (delete_project_row id)
  unfolding delete_project_row
  delete_project_row-Keeps = search keeps_rules depth 9

  delete_project_body-Framed : Framed (delete_project_body id)
  unfolding delete_project_body
  delete_project_body-Framed = Framed-of _ (search (keeps_rules, delete_project_row-Keeps) depth 12)

  pub delete_project-Keeps : Keeps Anything (delete_project id)
  unfolding delete_project delete_project_body
  delete_project-Keeps = search (keeps_rules, delete_project_row-Keeps) depth 14

  delete_memory_body-Framed : Framed (delete_memory_body id)
  unfolding delete_memory_body
  delete_memory_body-Framed = Framed-of _ (search keeps_rules depth 12)

  -- The tables without a project: its row, its memories and their embeddings are gone.
  unfoldable pub without_project : Db → Db
  without_project d =
      let d' = delete_memories (in_project id) d in
      record d' { projects = filter (λ r. not (str_eq r.id id)) d'.projects }

  delete_project_body_lem :
      (s : Store)
      → has project_key id s.projects ≡ true
      → delete_project_body id s
        ≡ (ok (length (filter (in_project id) s.memories)), record s { db = without_project s.db })
  unfolding delete_project_body delete_project_row without_project
  delete_project_body_lem s h = rw h (rw (any-removed (in_project id) s.memories) refl)

  -- The memory of an embedding belongs to the project.
  abbrev pub owned : List MemoryRow → EmbeddingRow → Bool
  owned ms e = passes (λ m. opt_str_eq m.project_id (some id)) (find memory_key e.memory_id ms)

  has-removed :
      (ms : List MemoryRow) (e : EmbeddingRow)
      → IsUnique memory_key ms
      → has memory_key e.memory_id (filter (in_project id) ms) ≡ owned ms e
  has-removed ms e u = elim (Option-cases (find memory_key e.memory_id ms)) [
    | inl missing ↦
        rw missing
          (ground (arith, find-filter-none memory_key (in_project id) e.memory_id ms missing))
    | inr (m, held) ↦ elim (Bool-cases (in_project id m)) [
      | inl inside ↦
          rw held (
            ground
              (arith, find-filter-true memory_key (in_project id) e.memory_id ms m held inside))
      | inr outside ↦ rw held (
          ground
            (arith, find-filter-false memory_key (in_project id) e.memory_id ms m u held outside))
    ]
  ]

  -- The tables afterwards, each by the rows that stay.
  pub record Removed (before after : Db) : Type 0 where
    pub projects : after.projects ≡ filter (λ p. not (str_eq p.id id)) before.projects
    pub memories :
        after.memories ≡ filter (λ m. not (opt_str_eq m.project_id (some id))) before.memories
    pub embeddings :
        after.embeddings ≡ filter (λ e. not (owned before.memories e)) before.embeddings

  without_project-Removed :
      (d : Db) → IsUnique memory_key d.memories → Removed d (without_project d)
  unfolding without_project
  without_project-Removed d u = record {
    projects = refl;
    memories = refl;
    embeddings = filter-ext _ _ d.embeddings (λ e. ap not (has-removed d.memories e u));
  }

  -- `delete_project` on a known project, where memory ids are unique, with no more than three busy
  -- attempts before the lock is granted: it returns how many memories the project had, and what stays
  -- are the other projects, the memories of no or another project and the embeddings of such
  -- memories; the stack of savepoints and the depth are as before.
  pub delete_project-removes :
      (s : Store)
      → IsBalanced s
      → s.busy ≤ 3
      → IsUnique memory_key s.memories
      → has project_key id s.projects ≡ true
      → ((delete_project id s).0
          ≡ ok (length (filter (λ m. opt_str_eq m.project_id (some id)) s.memories)))
        × Removed s.db (delete_project id s).1.db
        × ((delete_project id s).1.saved ≡ s.saved)
        × ((delete_project id s).1.depth ≡ s.depth)
  unfolding delete_project
  delete_project-removes s b n u h =
      let lem = delete_project_body_lem (opened s) h in
      let done =
        transaction_commits (delete_project_body id) delete_project_body-Framed s
          (length (filter (in_project id) s.memories)) b n (ap (λ r. r.0) lem) in
      (
        ap (λ r. r.0) done,
        subst (Removed s.db) (sym (ap (λ r. r.1.db) done ∙ ap (λ r. r.1.db) lem))
            (without_project-Removed s.db u),
        ap (λ r. r.1.saved) done,
        ap (λ r. r.1.depth) done,
      )

  delete_memory_body_lem :
      (s : Store)
      → has memory_key id s.memories ≡ true
      → delete_memory_body id s ≡ (ok tt, record s { db = delete_memories (has_id id) s.db })
  unfolding delete_memory_body
  delete_memory_body_lem s h = rw h refl

  -- The tables without a memory: the row with the id and the embedding of that id are gone.
  pub record Forgotten (before after : Db) : Type 0 where
    pub projects : after.projects ≡ before.projects
    pub memories : after.memories ≡ filter (λ m. not (str_eq m.id id)) before.memories
    pub embeddings : after.embeddings ≡ filter (λ e. not (str_eq e.memory_id id)) before.embeddings

  has-removed_id :
      (ms : List MemoryRow) (e : EmbeddingRow)
      → has memory_key id ms ≡ true
      → has memory_key e.memory_id (filter (has_id id) ms) ≡ str_eq e.memory_id id
  has-removed_id ms e h =
      ground
        (arith, eq_iff e.memory_id id, find-filter_key memory_key (λ i. str_eq i id) e.memory_id ms)

  delete_memories-Forgotten :
      (d : Db) → has memory_key id d.memories ≡ true → Forgotten d (delete_memories (has_id id) d)
  delete_memories-Forgotten d h = record {
    projects = refl;
    memories = refl;
    embeddings = filter-ext _ _ d.embeddings (λ e. ap not (has-removed_id d.memories e h));
  }

  -- `delete_memory` on a known memory, with no more than three busy attempts: it returns, every other
  -- memory, every embedding of another id and every project stays, and the row with the id and its
  -- embedding are gone; the stack of savepoints and the depth are as before.
  pub delete_memory-removes :
      (s : Store)
      → IsBalanced s
      → s.busy ≤ 3
      → has memory_key id s.memories ≡ true
      → ((delete_memory id s).0 ≡ ok tt)
        × Forgotten s.db (delete_memory id s).1.db
        × ((delete_memory id s).1.saved ≡ s.saved)
        × ((delete_memory id s).1.depth ≡ s.depth)
  unfolding delete_memory
  delete_memory-removes s b n h =
      let lem = delete_memory_body_lem (opened s) h in
      let done =
        transaction_commits (delete_memory_body id) delete_memory_body-Framed s tt b n
          (ap (λ r. r.0) lem) in
      (
        ap (λ r. r.0) done,
        subst (Forgotten s.db) (sym (ap (λ r. r.1.db) done ∙ ap (λ r. r.1.db) lem))
            (delete_memories-Forgotten s.db h),
        ap (λ r. r.1.saved) done,
        ap (λ r. r.1.depth) done,
      )

-- A deletion on a connection with no transaction open: the lock is free afterwards.
pub delete_memory-idle :
    (id : String) (d : Db) (b : ℕ)
    → b ≤ 3
    → has memory_key id d.memories ≡ true
    → delete_memory id (idle d 0 b) ≡ (ok tt, idle (delete_memories (has_id id) d) 0 0)
unfolding delete_memory
delete_memory-idle id d b h k =
    transaction-opened (delete_memory_body id) (idle d 0 b) refl (λ _. h)
    ∙ rw (delete_memory_body_lem id (opened (idle d 0 b)) k) (
        leave_ok (idle d 0 b) tt
          (record (opened (idle d 0 b)) { db = delete_memories (has_id id) d })
          (record { same_saved = refl; same_depth = refl }))

delete_memory_body_missing :
    (id : String) (s : Store)
    → has memory_key id s.memories ≡ false
    → delete_memory_body id s
      ≡ (err memory_not_found, record s { db = delete_memories (has_id id) s.db })
unfolding delete_memory_body
delete_memory_body_missing id s h = rw h refl

pub delete_memory-idle_missing :
    (id : String) (d : Db) (b : ℕ)
    → b ≤ 3
    → has memory_key id d.memories ≡ false
    → delete_memory id (idle d 0 b) ≡ (err memory_not_found, idle d 0 0)
unfolding delete_memory
delete_memory-idle_missing id d b h k =
    transaction-opened (delete_memory_body id) (idle d 0 b) refl (λ _. h)
    ∙ rw (delete_memory_body_missing id (opened (idle d 0 b)) k) (
        leave_err (idle d 0 b) memory_not_found
          (record (opened (idle d 0 b)) { db = delete_memories (has_id id) d })
          (record { same_saved = refl; same_depth = refl }))
