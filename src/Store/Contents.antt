-- ===== src/Store/Contents.antt =====
-- What the memory methods promise: a map from ids to memories. `known` says which projects exist.
use openchronicle_mcp.Base.{
  ℕ, Bool, not, Option, none, some, List, [], ◌∷◌, String, str_eq, is_some, if◌then◌else◌,
}
use openchronicle_mcp.Domain.{
  Result, ok, err, aware, require_utc, MemoryItem, integrity, project_not_found, memory_not_found,
}
use openchronicle_mcp.Store.Conn.{Action, Store, pure, ◌>>=◌, ◌>>◌}
use openchronicle_mcp.Store.Memory
use openchronicle_mcp.Store.Memory.{aware?, require_utc?, or_keep}

pub data MemoryCall : Type 0 where
  add : MemoryItem → MemoryCall
  get : String → MemoryCall
  update : ℕ → String → Option String → Option (List String) → MemoryCall
  pin : String → Bool → MemoryCall
  delete : String → MemoryCall

-- The call on the database; a method that returns None answers `none`.
unfoldable pub call : MemoryCall → Action (Option MemoryItem)
call (add item) = Memory.add_memory item >> pure none
call (get id) = Memory.get_memory id
call (update now id content tags) = Memory.update_memory now id content tags >>= λ i. pure (some i)
call (pin id pinned) = Memory.set_pinned id pinned >> pure none
call (delete id) = Memory.delete_memory id >> pure none

abbrev pub Contents : Type 0
Contents = String → Option MemoryItem

abbrev pub put : MemoryItem → Contents → Contents
put i m k = if str_eq i.id k then some i else m k

abbrev pub remove : String → Contents → Contents
remove id m k = if str_eq id k then none else m k

abbrev pub Answer : Type 0
Answer = Result (Option MemoryItem) × Contents

-- A new id, in a known project.
abbrev insert : (Option String → Bool) → MemoryItem → Contents → Answer
insert known i m =
    if is_some (m i.id)
    then (err integrity, m)
    else if not (known i.project_id)
    then (err project_not_found, m)
    else (ok none, put i m)

abbrev spec_add :
    (Option String → Bool) → MemoryItem → Result ℕ → Result (Option ℕ) → Contents → Answer
spec_add known i (err e) updated m = (err e, m)
spec_add known i (ok created) (err e) m = (err e, m)
spec_add known i (ok created) (ok updated) m =
    insert known (record i { created_at = aware created; updated_at = aware? updated }) m

abbrev change :
    (MemoryItem → MemoryItem)
    → (MemoryItem → Option MemoryItem)
    → Option MemoryItem
    → Contents
    → Answer
change f answer none m = (err memory_not_found, m)
change f answer (some i) m = (ok (answer (f i)), put (f i) m)

abbrev edited : ℕ → Option String → Option (List String) → MemoryItem → MemoryItem
edited now content tags i = record i {
  content = or_keep content i.content;
  tags = or_keep tags i.tags;
  updated_at = some (aware now);
}

abbrev spec_delete : String → Option MemoryItem → Contents → Answer
spec_delete id none m = (err memory_not_found, m)
spec_delete id (some i) m = (ok none, remove id m)

-- One call on the map.
unfoldable pub spec : (Option String → Bool) → MemoryCall → Contents → Answer
spec known (add i) m = spec_add known i (require_utc i.created_at) (require_utc? i.updated_at) m
spec known (get id) m = (ok (m id), m)
spec known (update now id content tags) m = change (edited now content tags) some (m id) m
spec known (pin id b) m = change (λ i. record i { pinned = b }) (λ i. none) (m id) m
spec known (delete id) m = spec_delete id (m id) m

-- A sequence of calls, with every answer.
unfoldable pub calls : List MemoryCall → Store → List (Result (Option MemoryItem)) × Store
calls [] s = ([], s)
calls (c ∷ cs) s = let (r, s') = call c s in let (rs, s'') = calls cs s' in (r ∷ rs, s'')

unfoldable pub specs :
    (Option String → Bool)
    → List MemoryCall
    → Contents
    → List (Result (Option MemoryItem)) × Contents
specs known [] m = ([], m)
specs known (c ∷ cs) m =
    let (r, m') = spec known c m in let (rs, m'') = specs known cs m' in (r ∷ rs, m'')
