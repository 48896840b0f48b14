-- ===== src/Import/Loops.antt =====
-- The two insertion loops of import_memory.py on checked rows.
use openchronicle_mcp.Base.{
  ◌+◌, ◌≡◌, ap, ◌∙◌, sym, true, Option, List, [], ◌∷◌, ◌++◌, map, String, contains, if◌then◌else◌,
  inl, inr, Bool-cases, append-nil, append_assoc,
}
use openchronicle_mcp.Domain.{ok}
use openchronicle_mcp.Store.Conn.{Store, project_key, memory_key}
use openchronicle_mcp.Store.Memory.{has_project}
use openchronicle_mcp.Import.Validate.{RawProject, RawMemory, known}
use openchronicle_mcp.Import.Apply.{
  Counts, is_watermark, is_oversized, import_projects, import_memories,
}
use openchronicle_mcp.Import.Sound.{GoodProjects, GoodMemories}
use openchronicle_mcp.Import.Rows.{
  Covers, Covers-append, Covers-free, Covers-skip, add_memory_lem, add_project_lem, memory_counts,
  memory_row, new_memories, new_projects, project_counts, project_row, with_memories, with_projects,
}
use openchronicle_mcp.Import.Counting.{
  project_counts-nil, project_counts-old, project_counts-new, memory_counts-nil,
  memory_counts-dropped, memory_counts-old, memory_counts-new,
}

module _ (existing : List String) where
  pub import_projects_lem :
      (ps : List RawProject) (seen : List String) (c : Counts) (s : Store)
      → GoodProjects seen ps
      → Covers project_key existing seen s.projects
      → import_projects existing c ps s ≡ (
        ok (project_counts existing c ps),
        with_projects (s.projects ++ map project_row (new_projects existing ps)) s,
      )
  unfolding import_projects
  import_projects_lem [] seen c s g cov =
      rw (project_counts-nil existing c)
        (ap (λ ps. (ok c, with_projects ps s)) (sym (append-nil s.projects)))
  import_projects_lem (p ∷ ps) seen c s g cov = elim (Bool-cases (contains existing p.id)) [
    | inl old ↦ rw (sym (project_counts-old existing c p ps old)) (
        rw old (
          import_projects_lem ps (p.id ∷ seen)
            (record c { projects_skipped = c.projects_skipped + 1 }) s g.2
            (Covers-skip project_key existing seen s.projects p.id cov)))
    | inr new ↦ rw (sym (project_counts-new existing c p ps new)) (
        rw new (
          rw
            (add_project_lem p s g.1
              (Covers-free project_key existing seen s.projects p.id cov new g.0))
            (import_projects_lem ps (p.id ∷ seen)
                (record c { projects_added = c.projects_added + 1 })
                (with_projects (s.projects ++ project_row p ∷ []) s) g.2
                (Covers-append project_key existing seen s.projects (project_row p) cov)
              ∙ λ i. (
                ok (
                    project_counts existing (record c { projects_added = c.projects_added + 1 })
                      ps),
                with_projects
                    (append_assoc s.projects (project_row p ∷ [])
                      (map project_row (new_projects existing ps)) i)
                    s,
              ))))
  ]

  pub import_memories_lem :
      (projects : List String) (ms : List RawMemory) (seen : List String) (c : Counts) (s : Store)
      → ((o : Option String) → known projects o ≡ true → has_project s.projects o ≡ true)
      → GoodMemories projects seen ms
      → Covers memory_key existing seen s.memories
      → import_memories existing c ms s ≡ (
        ok (memory_counts existing c ms),
        with_memories (s.memories ++ map memory_row (new_memories existing ms)) s,
      )
  unfolding import_memories
  import_memories_lem projects [] seen c s met g cov =
      rw (memory_counts-nil existing c)
        (ap (λ ms. (ok c, with_memories ms s)) (sym (append-nil s.memories)))
  import_memories_lem projects (m ∷ ms) seen c s met g cov = elim (Bool-cases (is_watermark m)) [
    | inl dropped ↦ rw (sym (memory_counts-dropped existing c m ms dropped)) (
        rw dropped (
          import_memories_lem projects ms (m.id ∷ seen) _ s met g.4
            (Covers-skip memory_key existing seen s.memories m.id cov)))
    | inr kept ↦ elim (Bool-cases (contains existing m.id)) [
      | inl old ↦ rw (sym (memory_counts-old existing c m ms kept old)) (
          rw (kept, old)
            (import_memories_lem projects ms (m.id ∷ seen) _ s met g.4
              (Covers-skip memory_key existing seen s.memories m.id cov)))
      | inr new ↦
          let free = Covers-free memory_key existing seen s.memories m.id cov new g.0 in
          let c' = record c {
            memory_added = c.memory_added + 1;
            oversized_content = c.oversized_content + (if is_oversized m then 1 else 0);
          } in
          rw (sym (memory_counts-new existing c m ms kept new)) (
            rw (kept, new)
              (rw (add_memory_lem m s g.2 g.3 free (met m.project_id g.1)) (
                import_memories_lem projects ms (m.id ∷ seen) c'
                  (with_memories (s.memories ++ memory_row m ∷ []) s) met g.4
                  (Covers-append memory_key existing seen s.memories (memory_row m) cov)
                ∙ λ i. (
                  ok (memory_counts existing c' ms),
                  with_memories
                      (append_assoc s.memories (memory_row m ∷ [])
                        (map memory_row (new_memories existing ms)) i)
                      s,
                ))))
    ]
  ]
