-- ===== src/UseCases/Memories.antt =====
-- add_memory, update_memory, delete_memory, pin_memory, show_memory and list_memory. The embedding
-- service is optional; it shares the store, which is the one in `Service`.
use openchronicle_mcp.Base.{
  ℕ, Bool, true, false, not, ◌&&◌, ◌||◌, Option, none, some, List, String, ltb, str_eq, is_some,
  is_blank, codes, length, if◌then◌else◌,
}
use openchronicle_mcp.Domain.{
  Result, ok, err, validation, memory_not_found, aware, require_utc, MemoryItem, max_content_chars,
}
use openchronicle_mcp.Store.Conn.{Store, Action, pure, raise_if, or_raise, ◌>>=◌, ◌>>◌, lift}
use openchronicle_mcp.Store.Memory
use openchronicle_mcp.Store.Memory.{ListQuery, get_memory, aware?, require_utc?}
use openchronicle_mcp.Store.Embedding.{delete_embedding}
use openchronicle_mcp.Service.Port.{World, Snapshot, Service}
use openchronicle_mcp.Service.Generate.{generate_for_memory}

abbrev pub with_store : {A : Type 0} → Service → Result A × Store → Result A × Service
with_store sv (r, s) = (r, record sv { store = s })

abbrev pub on_store : {A : Type 0} → Action A → Service → Result A × Service
on_store m sv = with_store sv (m sv.store)

abbrev pub bad_content : String → Bool
bad_content content = is_blank content || ltb max_content_chars (length (codes content))

-- `item.created_at = require_utc(…)`, then the store's own method.
unfoldable pub add_checked : MemoryItem → Action MemoryItem
add_checked item = do
  raise_if (not (is_some item.project_id)) validation
  raise_if (bad_content item.content) validation
  created ← lift (require_utc item.created_at)
  updated ← lift (require_utc? item.updated_at)
  let item' = record item { created_at = aware created; updated_at = aware? updated }
  Memory.add_memory item'
  pure item'

-- A configured service, with the snapshots of the revision that it sees.
pub record Configured : Type 0 where
  pub world : World
  pub opening : Snapshot
  pub refreshed : Snapshot

-- A failed generation is logged, and the call goes on.
abbrev pub try_generate : Option Configured → String → String → Bool → Service → Service
try_generate none id content force sv = sv
try_generate (some c) id content force sv =
    (generate_for_memory c.world c.opening c.refreshed id content force sv).1

abbrev added : Option Configured → Result MemoryItem × Service → Result MemoryItem × Service
added c (ok item, sv) = (ok item, try_generate c item.id item.content false sv)
added c (err e, sv) = (err e, sv)

unfoldable pub add_memory : Option Configured → MemoryItem → Service → Result MemoryItem × Service
add_memory c item sv = added c (on_store (add_checked item) sv)

abbrev pub bad_update : Option String → Bool
bad_update none = false
bad_update (some content) = bad_content content

-- The old vector is dropped whenever the content changes, service or not.
abbrev pub drop_vector : Option String → String → Action (Unit {0})
drop_vector none id = pure tt
drop_vector (some content) id = delete_embedding id

unfoldable pub update_checked :
    ℕ → String → Option String → Option (List String) → Action MemoryItem
update_checked now id content tags = do
  raise_if (not (is_some content) && not (is_some tags)) validation
  raise_if (bad_update content) validation
  updated ← Memory.update_memory now id content tags
  drop_vector content id
  pure updated

abbrev pub updated_with :
    Option Configured → Option String → Result MemoryItem × Service → Result MemoryItem × Service
updated_with c none (r, sv) = (r, sv)
updated_with c (some content) (ok item, sv) = (ok item, try_generate c item.id item.content true sv)
updated_with c (some content) (err e, sv) = (err e, sv)

unfoldable pub update_memory :
    Option Configured
    → ℕ
    → String
    → Option String
    → Option (List String)
    → Service
    → Result MemoryItem × Service
update_memory c now id content tags sv =
    updated_with c content (on_store (update_checked now id content tags) sv)

-- With `confirm`, `none` is the answer; without it, the memory as a preview.
unfoldable pub delete_memory : String → Bool → Action (Option MemoryItem)
delete_memory id confirm =
    if confirm
    then (Memory.delete_memory id >> pure none)
    else (do memory ← or_raise memory_not_found (← get_memory id); pure (some memory))

unfoldable pub pin_memory : String → Bool → Action (Unit {0})
pin_memory id pinned = do or_raise memory_not_found (← get_memory id); Memory.set_pinned id pinned

unfoldable pub show_memory : String → Action MemoryItem
show_memory id = get_memory id >>= or_raise memory_not_found

unfoldable pub list_memory : ListQuery → Action (List MemoryItem)
list_memory q = do
  raise_if (not (str_eq q.order_by "pinned_first" || str_eq q.order_by "created_at")) validation
  Memory.list_memory q
