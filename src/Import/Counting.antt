-- ===== src/Import/Counting.antt =====
-- The counts of the loops, one row at a time.
use openchronicle_mcp.Base.{
  suc, ◌+◌, ◌≡◌, true, false, List, [], ◌∷◌, String, arith, contains, if◌then◌else◌, length, count,
}
use openchronicle_mcp.Import.Validate.{RawProject, RawMemory}
use openchronicle_mcp.Import.Apply.{Counts, is_watermark, is_oversized}
use openchronicle_mcp.Import.Rows.{
  is_collision, memory_counts, new_memories, new_projects, project_counts,
}

module _ (existing : List String) (c : Counts) where
  pub project_counts-nil : project_counts existing c [] ≡ c
  project_counts-nil =
      let a : c.projects_added + 0 ≡ c.projects_added = omega arith in
      let k : c.projects_skipped + 0 ≡ c.projects_skipped = omega arith in
      λ i. record c { projects_added = a i; projects_skipped = k i }

  pub project_counts-old :
      (p : RawProject) (ps : List RawProject)
      → contains existing p.id ≡ true
      → project_counts existing (record c { projects_skipped = c.projects_skipped + 1 }) ps
        ≡ project_counts existing c (p ∷ ps)
  project_counts-old p ps h =
      let n = count (λ q. contains existing q.id) ps in
      let k : c.projects_skipped + 1 + n ≡ c.projects_skipped + suc n = omega arith in
      rw h (λ i. record (project_counts existing c ps) { projects_skipped = k i })

  pub project_counts-new :
      (p : RawProject) (ps : List RawProject)
      → contains existing p.id ≡ false
      → project_counts existing (record c { projects_added = c.projects_added + 1 }) ps
        ≡ project_counts existing c (p ∷ ps)
  project_counts-new p ps h =
      let n = length (new_projects existing ps) in
      let k : c.projects_added + 1 + n ≡ c.projects_added + suc n = omega arith in
      rw h (λ i. record (project_counts existing c ps) { projects_added = k i })

  pub memory_counts-nil : memory_counts existing c [] ≡ c
  memory_counts-nil =
      let a : c.memory_added + 0 ≡ c.memory_added = omega arith in
      let k : c.memory_skipped + 0 ≡ c.memory_skipped = omega arith in
      let w : c.watermark_dropped + 0 ≡ c.watermark_dropped = omega arith in
      let o : c.oversized_content + 0 ≡ c.oversized_content = omega arith in
      λ i. record c {
        memory_added = a i;
        memory_skipped = k i;
        watermark_dropped = w i;
        oversized_content = o i;
      }

  pub memory_counts-dropped :
      (m : RawMemory) (ms : List RawMemory)
      → is_watermark m ≡ true
      → memory_counts existing (record c { watermark_dropped = c.watermark_dropped + 1 }) ms
        ≡ memory_counts existing c (m ∷ ms)
  memory_counts-dropped m ms h =
      let n = count is_watermark ms in
      let k : c.watermark_dropped + 1 + n ≡ c.watermark_dropped + suc n = omega arith in
      rw h (λ i. record (memory_counts existing c ms) { watermark_dropped = k i })

  pub memory_counts-old :
      (m : RawMemory) (ms : List RawMemory)
      → is_watermark m ≡ false
      → contains existing m.id ≡ true
      → memory_counts existing (record c { memory_skipped = c.memory_skipped + 1 }) ms
        ≡ memory_counts existing c (m ∷ ms)
  memory_counts-old m ms w h =
      let n = count (is_collision existing) ms in
      let k : c.memory_skipped + 1 + n ≡ c.memory_skipped + suc n = omega arith in
      rw (w, h) (λ i. record (memory_counts existing c ms) { memory_skipped = k i })

  pub memory_counts-new :
      (m : RawMemory) (ms : List RawMemory)
      → is_watermark m ≡ false
      → contains existing m.id ≡ false
      → memory_counts existing
          (record c {
            memory_added = c.memory_added + 1;
            oversized_content = c.oversized_content + (if is_oversized m then 1 else 0);
          })
          ms
        ≡ memory_counts existing c (m ∷ ms)
  memory_counts-new m ms w h =
      let n = length (new_memories existing ms) in
      let k : c.memory_added + 1 + n ≡ c.memory_added + suc n = omega arith in
      rw (w, h)
        (λ i. record (memory_counts existing c ms) {
          memory_added = k i;
          oversized_content = oversized_step i;
        })
    where
      oversized_step :
          c.oversized_content
            + (if is_oversized m then 1 else 0)
            + count is_oversized (new_memories existing ms)
          ≡ c.oversized_content + count is_oversized (m ∷ new_memories existing ms)
      oversized_step = ground arith
