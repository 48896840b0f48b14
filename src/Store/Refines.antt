-- ===== src/Store/Refines.antt =====
-- The memory methods of SqliteStore implement the map of Store/Contents.
use openchronicle_mcp.Base.{
  ℕ, ◌≤◌, ◌≡◌, refl, ap, ◌∙◌, Bool, false, not, Option, some, List, [], ◌∷◌, ◌++◌, String, arith,
  str_eq, eq_iff, is_some, inl, inr, Bool-cases, Option-cases,
}
use mathlib.Core.Path.{fun_ext}
use openchronicle_mcp.Table.{
  find, has, modify, find-append, find-key, find-modify_self, find-modify_ne, find-filter_key,
}
use openchronicle_mcp.Domain.{Result, ok, err, require_utc, MemoryItem, memory_not_found}
use openchronicle_mcp.Store.Conn.{MemoryRow, Db, Store, memory_key}
use openchronicle_mcp.Store.Projects.{delete_memories}
use openchronicle_mcp.Store.Memory.{
  row_to_memory_item, found_item, has_project, has_id, require_utc?, add_memory, insert_memory,
  get_memory, change_memory, set_pinned, update_memory, with_pin, edit,
}
use openchronicle_mcp.Store.Transaction.{idle}
use openchronicle_mcp.Store.Removal.{delete_memory-idle, delete_memory-idle_missing}
use openchronicle_mcp.Store.Contents.{
  MemoryCall, add, get, update, pin, delete, call, Contents, put, remove, Answer, spec, calls,
  specs,
}

-- The map that the memory table stands for.
abbrev pub view : Db → Contents
view d id = found_item (find memory_key id d.memories)

abbrev known : Db → Option String → Bool
known d = has_project d.projects

-- A call's outcome on the tables is that on the map.
record Simulates (d : Db) (a : Answer) (r : Result (Option MemoryItem) × Store) : Type 0 where
  after : Db
  busy : ℕ
  granted : busy ≤ 3
  ended : r ≡ (a.0, idle after 0 busy)
  same_view : view after ≡ a.1
  same_projects : after.projects ≡ d.projects

-- Nothing changed.
unchanged :
    (d : Db) (b : ℕ) (r : Result (Option MemoryItem))
    → b ≤ 3
    → Simulates d (r, view d) (r, idle d 0 b)
unchanged d b r h = record {
  after = d;
  busy = b;
  granted = h;
  ended = refl;
  same_view = refl;
  same_projects = refl;
}

abbrev with_memories : Db → List MemoryRow → Db
with_memories d ms = record d { memories = ms }

view-insert :
    (d : Db) (r : MemoryRow)
    → has memory_key r.id d.memories ≡ false
    → view (with_memories d (d.memories ++ r ∷ [])) ≡ put (row_to_memory_item r) (view d)
view-insert d r new =
    fun_ext λ k. ground (arith, eq_iff r.id k, find-append memory_key k d.memories (r ∷ []))

view-modify :
    (d : Db) (id : String) (f : MemoryRow → MemoryRow) (same : (r : MemoryRow) → (f r).id ≡ r.id)
    (r : MemoryRow)
    → find memory_key id d.memories ≡ some r
    → view (with_memories d (modify memory_key id f d.memories))
      ≡ put (row_to_memory_item (f r)) (view d)
view-modify d id f same r h = fun_ext λ k. ground (
  arith,
  eq_iff id k,
  eq_iff (f r).id k,
  same r,
  find-key memory_key id d.memories r h,
  find-modify_self memory_key f same id d.memories r h,
  find-modify_ne memory_key f same k id d.memories,
)

view-delete : (d : Db) (id : String) → view (delete_memories (has_id id) d) ≡ remove id (view d)
view-delete d id = fun_ext λ k. ground (
  arith,
  eq_iff id k,
  eq_iff k id,
  find-filter_key memory_key (λ i. not (str_eq i id)) k d.memories,
)

module _ (d : Db) (b : ℕ) (h : b ≤ 3) where
  abbrev row_of : MemoryItem → ℕ → Option ℕ → MemoryRow
  row_of i t u = record {
    id = i.id;
    content = i.content;
    tags = i.tags;
    created_at = t;
    pinned = i.pinned;
    project_id = i.project_id;
    source = i.source;
    updated_at = u;
  }

  add-Simulates :
      (i : MemoryItem) → Simulates d (spec (known d) (add i) (view d)) (call (add i) (idle d 0 b))
  unfolding spec call add_memory insert_memory
  add-Simulates i = go (require_utc i.created_at) refl (require_utc? i.updated_at) refl
    where
      inserted :
          (t : ℕ) (u : Option ℕ)
          → require_utc i.created_at ≡ ok t
          → require_utc? i.updated_at ≡ ok u
          → Simulates d (spec (known d) (add i) (view d)) (call (add i) (idle d 0 b))
      inserted t u p q = elim (Option-cases (find memory_key i.id d.memories)) [
        | inr (r, held) ↦ rw (p, q) (rw held (unchanged d b _ h))
        | inl new ↦ elim (Bool-cases (has_project d.projects i.project_id)) [
          | inr missing ↦ rw (p, q) (rw new (rw missing (unchanged d b _ h)))
          | inl met ↦
              rw (p, q)
                (rw new (
                  rw met (record {
                    after = with_memories d (d.memories ++ row_of i t u ∷ []);
                    busy = b;
                    granted = h;
                    ended = refl;
                    same_view = view-insert d (row_of i t u) (ap is_some new);
                    same_projects = refl;
                  })))
        ]
      ]

      go :
          (c : Result ℕ)
          → require_utc i.created_at ≡ c
          → (u : Result (Option ℕ)) → require_utc? i.updated_at ≡ u
          → Simulates d (spec (known d) (add i) (view d)) (call (add i) (idle d 0 b))
      go (err e) p u q = rw p (unchanged d b _ h)
      go (ok t) p (err e) q = rw (p, q) (unchanged d b _ h)
      go (ok t) p (ok u) q = inserted t u p q

  get-Simulates :
      (id : String) → Simulates d (spec (known d) (get id) (view d)) (call (get id) (idle d 0 b))
  unfolding spec call get_memory
  get-Simulates id = unchanged d b _ h

  delete-Simulates :
      (id : String)
      → Simulates d (spec (known d) (delete id) (view d)) (call (delete id) (idle d 0 b))
  unfolding spec call
  delete-Simulates id = elim (Option-cases (find memory_key id d.memories)) [
    | inl missing ↦ rw missing (
        rw (delete_memory-idle_missing id d b h (ap is_some missing))
          (unchanged d 0 (err memory_not_found) (omega arith)))
    | inr (r, held) ↦ rw held (
        rw (delete_memory-idle id d b h (ap is_some held)) (record {
          after = delete_memories (has_id id) d;
          busy = 0;
          granted = omega arith;
          ended = refl;
          same_view = view-delete d id;
          same_projects = refl;
        }))
  ]

  pin-Simulates :
      (id : String) (pinned : Bool)
      → Simulates d (spec (known d) (pin id pinned) (view d)) (call (pin id pinned) (idle d 0 b))
  unfolding spec call set_pinned change_memory
  pin-Simulates id pinned = elim (Option-cases (find memory_key id d.memories)) [
    | inl missing ↦ rw missing (unchanged d b _ h)
    | inr (r, held) ↦ rw held (record {
      after = with_memories d (modify memory_key id (with_pin pinned) d.memories);
      busy = b;
      granted = h;
      ended = refl;
      same_view = view-modify d id (with_pin pinned) (λ r. refl) r held;
      same_projects = refl;
    })
  ]

  update-Simulates :
      (now : ℕ) (id : String) (content : Option String) (tags : Option (List String))
      → Simulates d
          (spec (known d) (update now id content tags) (view d))
          (call (update now id content tags) (idle d 0 b))
  unfolding spec call update_memory change_memory get_memory
  update-Simulates now id content tags = elim (Option-cases (find memory_key id d.memories)) [
    | inl missing ↦ rw missing (unchanged d b _ h)
    | inr (r, held) ↦
        let found =
          find-modify_self memory_key (edit now content tags) (λ r. refl) id d.memories r held in
        rw held (
          rw found (record {
            after = with_memories d (modify memory_key id (edit now content tags) d.memories);
            busy = b;
            granted = h;
            ended = refl;
            same_view = view-modify d id (edit now content tags) (λ r. refl) r held;
            same_projects = refl;
          }))
  ]

call-Simulates :
    (c : MemoryCall) (d : Db) (b : ℕ)
    → b ≤ 3
    → Simulates d (spec (known d) c (view d)) (call c (idle d 0 b))
call-Simulates (add i) d b h = add-Simulates d b h i
call-Simulates (get id) d b h = get-Simulates d b h id
call-Simulates (update now id content tags) d b h = update-Simulates d b h now id content tags
call-Simulates (pin id pinned) d b h = pin-Simulates d b h id pinned
call-Simulates (delete id) d b h = delete-Simulates d b h id

-- The tables after a sequence of calls stand for the map after the same calls.
pub record Implements (cs : List MemoryCall) (d : Db) (b : ℕ) : Type 0 where
  pub after : Db
  pub busy : ℕ
  pub ended : calls cs (idle d 0 b) ≡ ((specs (known d) cs (view d)).0, idle after 0 busy)
  pub same_view : view after ≡ (specs (known d) cs (view d)).1

-- On a connection with no transaction open, and with the lock granted within the four attempts of a
-- call, any sequence of add_memory, get_memory, update_memory, set_pinned and delete_memory gives
-- the answers, exceptions included, of the same calls on the map from ids to memories that the
-- table stands for, and leaves a table that stands for the resulting map.
pub calls-Implements : (cs : List MemoryCall) (d : Db) (b : ℕ) → b ≤ 3 → Implements cs d b
unfolding calls specs
calls-Implements [] d b h = record { after = d; busy = b; ended = refl; same_view = refl }
calls-Implements (c ∷ cs) d b h =
    let one = call-Simulates c d b h in
    let later = calls-Implements cs one.after one.busy one.granted in
    let same : specs (known one.after) cs (view one.after)
        ≡ specs (known d) cs (spec (known d) c (view d)).1 =
      λ i. specs (has_project (one.same_projects i)) cs (one.same_view i) in
    record {
      after = later.after;
      busy = later.busy;
      ended = rw (one.ended) (
          rw (later.ended)
            (ap (λ p. ((spec (known d) c (view d)).0 ∷ p.0, idle later.after 0 later.busy)) same));
      same_view = later.same_view ∙ ap (λ p. p.1) same;
    }
