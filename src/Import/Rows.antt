-- ===== src/Import/Rows.antt =====
-- The rows that an envelope's entries become, and the steps that insert one.
use openchronicle_mcp.Base.{
  ℕ, ◌+◌, ◌≡◌, refl, Bool, true, false, not, ◌&&◌, ◌||◌, Option, none, some, List, [], ◌∷◌, ◌++◌,
  String, arith, contains, filter, length, count,
}
use openchronicle_mcp.Table.{has, has-append}
use openchronicle_mcp.Domain.{ok, DateTime, naive, aware, require_utc}
use openchronicle_mcp.Store.Conn.{ProjectRow, MemoryRow, Store, project_key, memory_key}
use openchronicle_mcp.Store.Projects.{insert_project, add_project}
use openchronicle_mcp.Store.Memory.{insert_memory, add_memory, has_project, require_utc?}
use openchronicle_mcp.Import.Validate.{RawProject, RawMemory}
use openchronicle_mcp.Import.Apply.{Counts, project_of, item_of, is_watermark, is_oversized}
use openchronicle_mcp.Import.Sound.{datable, datable?}

-- The instant of a timestamp that has one.
abbrev pub instant : DateTime → ℕ
instant naive = 0
instant (aware t) = t

abbrev pub instant? : Option DateTime → Option ℕ
instant? none = none
instant? (some d) = some (instant d)

require_utc-instant : (d : DateTime) → datable d ≡ true → require_utc d ≡ ok (instant d)
unfolding require_utc
require_utc-instant naive h = cc
require_utc-instant (aware t) h = ground arith

require_utc?-instant : (d : Option DateTime) → datable? d ≡ true → require_utc? d ≡ ok (instant? d)
require_utc?-instant none h = refl
require_utc?-instant (some d) h = rw (require_utc?, require_utc-instant d h) refl

-- The row that an envelope's project becomes.
abbrev pub project_row : RawProject → ProjectRow
project_row p = record {
  id = p.id;
  name = p.name;
  metadata = (project_of p).metadata;
  created_at = instant p.created_at;
}

abbrev pub memory_row : RawMemory → MemoryRow
memory_row m = record {
  id = m.id;
  content = m.content;
  tags = m.tags;
  created_at = instant m.created_at;
  pinned = m.pinned;
  project_id = m.project_id;
  source = (item_of m).source;
  updated_at = instant? m.updated_at;
}

-- The rows of the envelope that the store does not hold.
abbrev pub new_projects : List String → List RawProject → List RawProject
new_projects existing ps = filter (λ p. not (contains existing p.id)) ps

abbrev pub is_collision : List String → RawMemory → Bool
is_collision existing m = not (is_watermark m) && contains existing m.id

abbrev pub is_new : List String → RawMemory → Bool
is_new existing m = not (is_watermark m) && not (contains existing m.id)

abbrev pub new_memories : List String → List RawMemory → List RawMemory
new_memories existing ms = filter (is_new existing) ms

-- Every id of the table is one of the store's or of the rows seen.
abbrev pub Covers : {A : Type 0} → (A → String) → List String → List String → List A → Type 0
Covers key existing seen rows =
    (k : String) → has key k rows ≡ true → (contains existing k || contains seen k) ≡ true

pub add_project_lem :
    (p : RawProject) (s : Store)
    → datable p.created_at ≡ true
    → has project_key p.id s.projects ≡ false
    → add_project (project_of p) s
      ≡ (ok tt, record s { db = record s.db { projects = s.projects ++ project_row p ∷ [] } })
unfolding add_project insert_project
add_project_lem p s d h = rw (require_utc-instant p.created_at d) (rw h refl)

pub add_memory_lem :
    (m : RawMemory) (s : Store)
    → datable m.created_at ≡ true
    → datable? m.updated_at ≡ true
    → has memory_key m.id s.memories ≡ false
    → has_project s.projects m.project_id ≡ true
    → add_memory (item_of m) s
      ≡ (ok tt, record s { db = record s.db { memories = s.memories ++ memory_row m ∷ [] } })
unfolding add_memory insert_memory
add_memory_lem m s d u h k =
    rw (require_utc-instant m.created_at d)
      (rw (require_utc?-instant m.updated_at u) (rw h (rw k refl)))

pub Covers-append :
    {A : Type 0} (key : A → String) (existing seen : List String) (rows : List A) (r : A)
    → Covers key existing seen rows
    → Covers key existing (key r ∷ seen) (rows ++ r ∷ [])
Covers-append key existing seen rows r c k h = ground (arith, c k, has-append key k rows (r ∷ []))

pub Covers-skip :
    {A : Type 0} (key : A → String) (existing seen : List String) (rows : List A) (i : String)
    → Covers key existing seen rows
    → Covers key existing (i ∷ seen) rows
Covers-skip key existing seen rows i c k h = ground (arith, c k)

pub Covers-free :
    {A : Type 0} (key : A → String) (existing seen : List String) (rows : List A) (i : String)
    → Covers key existing seen rows
    → contains existing i ≡ false
    → contains seen i ≡ false
    → has key i rows ≡ false
Covers-free key existing seen rows i c e f = ground (arith, c i)

abbrev pub with_projects : List ProjectRow → Store → Store
with_projects ps s = record s { db = record s.db { projects = ps } }

abbrev pub with_memories : List MemoryRow → Store → Store
with_memories ms s = record s { db = record s.db { memories = ms } }

abbrev pub project_counts : List String → Counts → List RawProject → Counts
project_counts existing c ps = record c {
  projects_added = c.projects_added + length (new_projects existing ps);
  projects_skipped = c.projects_skipped + count (λ p. contains existing p.id) ps;
}

abbrev pub memory_counts : List String → Counts → List RawMemory → Counts
memory_counts existing c ms = record c {
  memory_added = c.memory_added + length (new_memories existing ms);
  memory_skipped = c.memory_skipped + count (is_collision existing) ms;
  watermark_dropped = c.watermark_dropped + count is_watermark ms;
  oversized_content = c.oversized_content + count is_oversized (new_memories existing ms);
}
