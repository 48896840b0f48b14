-- ===== src/Git/Resume.antt =====
-- The watermark that a run leaves, and where the next one starts.
use openchronicle_mcp.Base.{
  ℕ, ◌≤◌, ◌≡◌, refl, ap, ◌∙◌, Bool, true, false, not, none, some, List, [], ◌∷◌, ◌++◌, map, String,
  arith, eq_refl, filter, filter-append, sort_by,
}
use openchronicle_mcp.Table.{has, IsUnique, find-filter-none}
use openchronicle_mcp.Domain.{ok, aware, watermark_source}
use openchronicle_mcp.Domain.Time.{InRange, require_utc-InRange}
use openchronicle_mcp.Store.Conn.{MemoryRow, Db, Store, memory_key, project_key}
use openchronicle_mcp.Store.Projects.{delete_memories}
use openchronicle_mcp.Store.Memory.{
  row_to_memory_item, newer, from_source, list_memory_by_source, add_memory, insert_memory,
}
use openchronicle_mcp.Store.Transaction.{idle}
use openchronicle_mcp.Git.Onboard.{watermark_item, save_watermark}
use openchronicle_mcp.Git.Sources.{delete_all-Selects, rows_from, rows_from-Selects}

abbrev pub watermark_row : String → ℕ → String → String → MemoryRow
watermark_row id t project_id latest_hash = record {
  id = id;
  content = latest_hash;
  tags = watermark_source ∷ [];
  created_at = t;
  pinned = false;
  project_id = some project_id;
  source = watermark_source;
  updated_at = none;
}

-- The tables with one watermark in the project, for the hash.
abbrev pub marked : String → ℕ → String → String → Db → Db
marked id t project_id latest_hash d =
    let d' = delete_memories (from_source watermark_source (some project_id)) d in
    record d' { memories = d'.memories ++ watermark_row id t project_id latest_hash ∷ [] }

module _ (id : String) (t : ℕ) (in_range : InRange t) (project_id : String)
    (latest_hash : String) where
  add_watermark :
      (d : Db) (c : ℕ)
      → has memory_key id d.memories ≡ false
      → has project_key project_id d.projects ≡ true
      → add_memory (watermark_item id (aware t) project_id latest_hash) (idle d 0 c) ≡ (
        ok tt,
        idle
            (record d { memories = d.memories ++ watermark_row id t project_id latest_hash ∷ [] })
            0
            c,
      )
  unfolding add_memory insert_memory
  add_watermark d c h k = rw (require_utc-InRange t in_range) (rw (h, k) refl)

  pub save_watermark-marked :
      (d : Db) (b : ℕ)
      → b ≤ 3
      → IsUnique memory_key d.memories
      → has memory_key id d.memories ≡ false
      → has project_key project_id d.projects ≡ true
      → (c : ℕ) × (c ≤ 3)
        × (save_watermark id (aware t) project_id latest_hash (idle d 0 b)
            ≡ (ok tt, idle (marked id t project_id latest_hash d) 0 c))
  unfolding save_watermark list_memory_by_source
  save_watermark-marked d b h u new met =
      let (c, l, e) =
        delete_all-Selects (from_source watermark_source (some project_id))
          (rows_from watermark_source project_id d) d b h
          (rows_from-Selects d u project_id watermark_source) in
      let new' : has memory_key id
            (delete_memories (from_source watermark_source (some project_id)) d).memories
          ≡ false =
        ground (
          arith,
          find-filter-none memory_key (λ r. not (from_source watermark_source (some project_id) r))
              id d.memories,
        ) in
      (
        c,
        l,
        rw e (
            add_watermark (delete_memories (from_source watermark_source (some project_id)) d) c
              new' met),
      )

-- After `save_watermark`, the project's only watermark is the new one.
rows_from-marked :
    (id : String) (t : ℕ) (project_id latest_hash : String) (d : Db)
    → rows_from watermark_source project_id (marked id t project_id latest_hash d)
      ≡ watermark_row id t project_id latest_hash ∷ []
rows_from-marked id t project_id latest_hash d = ap (sort_by newer) kept
  where
    here : MemoryRow → Bool
    here = from_source watermark_source (some project_id)

    row : MemoryRow
    row = watermark_row id t project_id latest_hash

    none_left : (rows : List MemoryRow) → filter here (filter (λ r. not (here r)) rows) ≡ []
    none_left [] = refl
    none_left (r ∷ rows) = ground (arith, none_left rows)

    alone : filter here (row ∷ []) ≡ row ∷ []
    alone = let e = eq_refl project_id in rw e refl

    kept : filter here (filter (λ r. not (here r)) d.memories ++ row ∷ []) ≡ row ∷ []
    kept = filter-append here (filter (λ r. not (here r)) d.memories) (row ∷ []) ∙ λ i.
        none_left d.memories i ++ alone i

-- With unique ids, a known project, a new id and the lock granted within the four attempts,
-- `save_watermark` returns, and then the project's watermarks are one memory: the new one, whose
-- content is the hash.
pub save_watermark-list_memory_by_source :
    (id : String) (t : ℕ)
    → InRange t
    → (project_id latest_hash : String) (d : Db) (b : ℕ) → b ≤ 3
    → IsUnique memory_key d.memories
    → has memory_key id d.memories ≡ false
    → has project_key project_id d.projects ≡ true
    → (s : Store) × (save_watermark id (aware t) project_id latest_hash (idle d 0 b) ≡ (ok tt, s))
      × (list_memory_by_source watermark_source (some project_id) s
          ≡ (ok (watermark_item id (aware t) project_id latest_hash ∷ []), s))
unfolding list_memory_by_source
save_watermark-list_memory_by_source id t in_range project_id latest_hash d b h u new met =
    let (c, l, e) = save_watermark-marked id t in_range project_id latest_hash d b h u new met in
    (
      idle (marked id t project_id latest_hash d) 0 c,
      e,
      ap
          (λ rows.
            (ok (map row_to_memory_item rows), idle (marked id t project_id latest_hash d) 0 c))
          (rows_from-marked id t project_id latest_hash d),
    )
