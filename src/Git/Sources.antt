-- ===== src/Git/Sources.antt =====
-- Deleting the memories of a source, as `onboard_git_prepare` and `save_watermark` do.
use openchronicle_mcp.Base.{
  ℕ, ◌≤◌, ◌≡◌, refl, ap, sym, ◌∙◌, Bool, true, false, ◌||◌, some, List, [], ◌∷◌, ◌++◌, map, String,
  arith, str_eq, eq_iff, filter, contains, All, All-imp, All-filter, All-sort_by, All-append,
  All-pair, filter-All, sort_by, is_some,
}
use mathlib.Core.Path.{subst}
use openchronicle_mcp.Table.{
  has, has-append, has-sort_by, IsUnique, IsUnique-filter, IsUnique-sort_by, IsUnique-find,
  IsUnique-append_apart, All-has-filter,
}
use openchronicle_mcp.Domain.{ok, watermark_source}
use openchronicle_mcp.Store.Conn.{MemoryRow, Db, memory_key}
use openchronicle_mcp.Store.Projects.{delete_memories}
use openchronicle_mcp.Store.Memory.{row_to_memory_item, newer, from_source}
use openchronicle_mcp.Store.Transaction.{idle}
use openchronicle_mcp.Git.Onboard.{delete_all, git_source}
use openchronicle_mcp.Git.Deleting.{
  without, item_id, AreHeld, delete_all-without, without-delete_memories, delete_memories-agree,
}

abbrev ids : List MemoryRow → List String
ids rows = map item_id (map row_to_memory_item rows)

has-ids : (k : String) (rows : List MemoryRow) → contains (ids rows) k ≡ has memory_key k rows
has-ids k [] = refl
has-ids k (r ∷ rows) = ground (arith, has-ids k rows)

abbrev Held : Db → MemoryRow → Type 0
Held d r = has memory_key r.id d.memories ≡ true

AreHeld-rows :
    (d : Db) (rows : List MemoryRow)
    → IsUnique memory_key rows
    → All (Held d) rows
    → AreHeld (ids rows) d
AreHeld-rows d [] u h = tt
AreHeld-rows d (r ∷ rows) u h =
    (ground (arith, has-ids r.id rows, u.0), h.0, AreHeld-rows d rows u.1 h.1)

-- A selection of the table's rows, in any order.
pub record Selects (p : MemoryRow → Bool) (d : Db) (rows : List MemoryRow) : Type 0 where
  pub unique : IsUnique memory_key rows
  pub held : All (Held d) rows
  pub chosen : All (λ r. has memory_key r.id rows ≡ p r) d.memories

pub delete_all-Selects :
    (p : MemoryRow → Bool) (rows : List MemoryRow) (d : Db) (b : ℕ)
    → b ≤ 3
    → Selects p d rows
    → (c : ℕ) × (c ≤ 3)
      × (delete_all (map row_to_memory_item rows) (idle d 0 b)
          ≡ (ok tt, idle (delete_memories p d) 0 c))
delete_all-Selects p rows d b h v =
    let (c, l, e) =
      delete_all-without (map row_to_memory_item rows) d b h
        (AreHeld-rows d rows v.unique v.held) in
    let same : without (ids rows) d ≡ delete_memories p d =
      without-delete_memories (ids rows) d
      ∙ delete_memories-agree (λ r. contains (ids rows) r.id) p d
          (All-imp _ _ (λ r q. has-ids r.id rows ∙ q) d.memories v.chosen) in
    (c, l, e ∙ ap (λ d'. (ok tt, idle d' 0 c)) same)

Held-rows : (d : Db) → IsUnique memory_key d.memories → All (Held d) d.memories
Held-rows d u = All-imp _ _ (λ r q. ap is_some q) d.memories (IsUnique-find memory_key d.memories u)

other_source : (s : String) → str_eq s git_source ≡ true → str_eq s watermark_source ≡ false
other_source s h =
    subst (λ t. str_eq t watermark_source ≡ false) (sym ((eq_iff s git_source).0 h)) refl

-- `ORDER BY created_at DESC` over `WHERE source = ? AND project_id = ?`.
abbrev pub rows_from : String → String → Db → List MemoryRow
rows_from source project_id d =
    sort_by newer (filter (from_source source (some project_id)) d.memories)

-- Everything that onboarding keeps in the project.
abbrev pub of_onboarding : String → MemoryRow → Bool
of_onboarding project_id r =
    from_source git_source (some project_id) r || from_source watermark_source (some project_id) r

module _ (d : Db) (u : IsUnique memory_key d.memories) (project_id : String) where
  module _ (source : String) where
    abbrev from_here : MemoryRow → Bool
    from_here = from_source source (some project_id)

    pub rows_from-Selects : Selects from_here d (rows_from source project_id d)
    rows_from-Selects = record {
      unique =
          IsUnique-sort_by memory_key newer (filter from_here d.memories)
            (IsUnique-filter memory_key from_here d.memories u);
      held =
          All-sort_by newer (Held d) (filter from_here d.memories)
            (All-filter (Held d) from_here d.memories (Held-rows d u));
      chosen =
          All-imp _ _ (λ r q. has-sort_by memory_key newer r.id (filter from_here d.memories) ∙ q)
            d.memories (All-has-filter memory_key from_here d.memories u);
    }

  not_mark :
      (r : MemoryRow)
      → (has memory_key r.id (rows_from watermark_source project_id d)
          ≡ from_here watermark_source r)
        × (from_here git_source r ≡ true)
      → has memory_key r.id (rows_from watermark_source project_id d) ≡ false
  not_mark r h = h.0 ∙ ground (arith, other_source r.source)

  either :
      (r : MemoryRow)
      → (has memory_key r.id (rows_from git_source project_id d) ≡ from_here git_source r)
        × (has memory_key r.id (rows_from watermark_source project_id d)
            ≡ from_here watermark_source r)
      → has memory_key r.id
          (rows_from git_source project_id d ++ rows_from watermark_source project_id d)
        ≡ of_onboarding project_id r
  either r h =
      has-append memory_key r.id (rows_from git_source project_id d)
        (rows_from watermark_source project_id d)
      ∙ rw (h.0, h.1) refl

  pub both-Selects :
      Selects
        (of_onboarding project_id)
        d
        (rows_from git_source project_id d ++ rows_from watermark_source project_id d)
  both-Selects =
      let git = rows_from-Selects git_source in
      let mark = rows_from-Selects watermark_source in
      record {
        unique =
            IsUnique-append_apart memory_key (rows_from git_source project_id d)
              (rows_from watermark_source project_id d) git.unique mark.unique
              (All-sort_by newer _ (filter (from_here git_source) d.memories) (
                All-imp _ _ not_mark _ (
                  All-pair _ _ _ (All-filter _ (from_here git_source) d.memories mark.chosen)
                    (filter-All (from_here git_source) d.memories))));
        held =
            All-append (Held d) (rows_from git_source project_id d)
              (rows_from watermark_source project_id d) git.held mark.held;
        chosen = All-imp _ _ either d.memories (All-pair _ _ d.memories git.chosen mark.chosen);
      }
