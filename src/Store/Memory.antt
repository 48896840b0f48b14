-- ===== src/Store/Memory.antt =====
-- The memory methods of SqliteStore. The clock's reading, `utc_now()`, is an argument.
use openchronicle_mcp.Base.{
  ℕ, Bool, true, false, not, ◌&&◌, ◌||◌, Option, none, some, List, [], ◌∷◌, ◌++◌, map, String, ltb,
  ◌==◌, str_eq, str_lt, if◌then◌else◌, length, filter, sort_by, all, any, contains, take, drop,
}
use openchronicle_mcp.Table.{find, has, modify}
use openchronicle_mcp.Domain.{
  Result, ok, err, DateTime, aware, require_utc, MemoryItem, project_not_found, memory_not_found,
  value_error, integrity,
}
use openchronicle_mcp.Store.Conn.{
  MemoryRow, ProjectRow, Action, project_key, memory_key, lift, gets, or_raise, raise_if, set_db,
  transaction, ◌>>=◌, ◌>>◌,
}
use openchronicle_mcp.Store.Projects.{in_project, delete_memories}

abbrev pub aware? : Option ℕ → Option DateTime
aware? none = none
aware? (some t) = some (aware t)

abbrev pub row_to_memory_item : MemoryRow → MemoryItem
row_to_memory_item r = record {
  id = r.id;
  content = r.content;
  tags = r.tags;
  created_at = aware r.created_at;
  pinned = r.pinned;
  project_id = r.project_id;
  source = r.source;
  updated_at = aware? r.updated_at;
}

-- `require_utc(updated_at) if updated_at else None`.
abbrev pub require_utc? : Option DateTime → Result (Option ℕ)
require_utc? none = ok none
require_utc? (some d) = elim (require_utc d) [ ok t ↦ ok (some t) | err e ↦ err e ]

-- FOREIGN KEY (project_id) REFERENCES projects(id).
abbrev pub has_project : List ProjectRow → Option String → Bool
has_project ps none = true
has_project ps (some p) = has project_key p ps

-- INSERT INTO memory_items. SQLite checks the primary key at once and the foreign key at the end
-- of the statement; `add_memory` turns the latter's failure into NotFoundError.
unfoldable pub insert_memory : MemoryRow → Action (Unit {0})
insert_memory r = do
  raise_if (← gets (λ s. has memory_key r.id s.memories)) integrity
  raise_if (not (← gets (λ s. has_project s.projects r.project_id))) project_not_found
  set_db (λ d. record d { memories = d.memories ++ r ∷ [] })

unfoldable pub add_memory : MemoryItem → Action (Unit {0})
add_memory item = do
  created ← lift (require_utc item.created_at)
  updated ← lift (require_utc? item.updated_at)
  insert_memory (record {
    id = item.id;
    content = item.content;
    tags = item.tags;
    created_at = created;
    pinned = item.pinned;
    project_id = item.project_id;
    source = item.source;
    updated_at = updated;
  })

abbrev pub found_item : Option MemoryRow → Option MemoryItem
found_item none = none
found_item (some r) = some (row_to_memory_item r)

unfoldable pub get_memory : String → Action (Option MemoryItem)
get_memory id = gets (λ s. found_item (find memory_key id s.memories))

-- `_tags_clause`: the row carries all of the tags.
abbrev pub carries_all : List String → MemoryRow → Bool
carries_all tags r = all (contains r.tags) tags

-- `_exclude_tags_clause`: the row carries one of the tags.
abbrev pub carries_any : List String → MemoryRow → Bool
carries_any tags r = any (contains r.tags) tags

abbrev pub in_scope : Option String → MemoryRow → Bool
in_scope none r = true
in_scope (some p) r = in_project p r

-- ORDER BY created_at DESC, id DESC.
abbrev pub newer : MemoryRow → MemoryRow → Bool
newer a b = ltb b.created_at a.created_at || (a.created_at == b.created_at && str_lt b.id a.id)

-- ORDER BY pinned DESC, created_at DESC, id DESC.
abbrev pub pinned_then_newer : MemoryRow → MemoryRow → Bool
pinned_then_newer a b = (a.pinned && not b.pinned) || (not (b.pinned && not a.pinned) && newer a b)

-- LIMIT and OFFSET; no limit is `LIMIT -1`.
abbrev pub page : {A : Type 0} → Option ℕ → ℕ → List A → List A
page none offset xs = drop offset xs
page (some limit) offset xs = take limit (drop offset xs)

pub record ListQuery : Type 0 where
  pub limit : Option ℕ
  pub pinned_only : Bool
  pub offset : ℕ
  pub project_id : Option String
  pub tags : List String
  pub exclude_tags : List String
  pub order_by : String

abbrev pub list_where : ListQuery → MemoryRow → Bool
list_where q r =
    (not q.pinned_only || r.pinned)
    && in_scope q.project_id r
    && carries_all q.tags r
    && not (carries_any q.exclude_tags r)

abbrev pub list_order : String → MemoryRow → MemoryRow → Bool
list_order o = if str_eq o "created_at" then newer else pinned_then_newer

-- An absent tag list and an empty one are the same filter.
unfoldable pub list_memory : ListQuery → Action (List MemoryItem)
list_memory q = do
  raise_if (not (str_eq q.order_by "pinned_first" || str_eq q.order_by "created_at")) value_error
  gets (λ s.
      map row_to_memory_item (
        page q.limit q.offset (sort_by (list_order q.order_by) (filter (list_where q) s.memories))))

-- `list_memory(limit=None, pinned_only=False, project_id=…)`.
abbrev pub all_of : Option String → ListQuery
all_of project_id = record {
  limit = none;
  pinned_only = false;
  offset = 0;
  project_id = project_id;
  tags = [];
  exclude_tags = [];
  order_by = "pinned_first";
}

unfoldable pub count_memory : Option String → Action ℕ
count_memory project_id = gets (λ s. length (filter (in_scope project_id) s.memories))

abbrev pub from_source : String → Option String → MemoryRow → Bool
from_source source project_id r = str_eq r.source source && in_scope project_id r

unfoldable pub list_memory_by_source : String → Option String → Action (List MemoryItem)
list_memory_by_source source project_id = gets (λ s.
    map row_to_memory_item (sort_by newer (filter (from_source source project_id) s.memories)))

-- UPDATE memory_items … WHERE id = ?, and the test of `rowcount`.
unfoldable pub change_memory : String → (MemoryRow → MemoryRow) → Action (Unit {0})
change_memory id f = do
  raise_if (not (← gets (λ s. has memory_key id s.memories))) memory_not_found
  set_db (λ d. record d { memories = modify memory_key id f d.memories })

abbrev pub with_pin : Bool → MemoryRow → MemoryRow
with_pin b r = record r { pinned = b }

unfoldable pub set_pinned : String → Bool → Action (Unit {0})
set_pinned id pinned = change_memory id (with_pin pinned)

abbrev pub or_keep : {A : Type 0} → Option A → A → A
or_keep none old = old
or_keep (some new) old = new

abbrev pub edit : ℕ → Option String → Option (List String) → MemoryRow → MemoryRow
edit now content tags r = record r {
  content = or_keep content r.content;
  tags = or_keep tags r.tags;
  updated_at = some now;
}

unfoldable pub update_memory : ℕ → String → Option String → Option (List String) → Action MemoryItem
update_memory now id content tags = do
  change_memory id (edit now content tags)
  or_raise memory_not_found (← get_memory id)

abbrev pub has_id : String → MemoryRow → Bool
has_id id r = str_eq r.id id

unfoldable pub delete_memory_body : String → Action (Unit {0})
delete_memory_body id = do
  known ← gets (λ s. has memory_key id s.memories)
  set_db (delete_memories (has_id id))
  raise_if (not known) memory_not_found

unfoldable pub delete_memory : String → Action (Unit {0})
delete_memory id = transaction (delete_memory_body id)
