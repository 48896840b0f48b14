-- ===== src/Service/Rerun.antt =====
-- `_backfill` run twice.
use openchronicle_mcp.Base.{
  ℕ, ◌≡◌, refl, ap, ◌∙◌, sym, Bool, true, false, Option, some, List, [], ◌∷◌, map, String, arith,
  inl, inr, Bool-cases, All, All-imp, All-filter, All-sort_by, length, filter, sort_by, eq_iff,
}
use mathlib.Core.Path.{subst}
use openchronicle_mcp.Table.{find, IsUnique, IsUnique-find}
use openchronicle_mcp.Domain.{ok, MemoryItem}
use openchronicle_mcp.Store.Conn.{MemoryRow, Store, memory_key}
use openchronicle_mcp.Store.Memory.{
  row_to_memory_item, list_memory, all_of, list_where, pinned_then_newer,
}
use openchronicle_mcp.Service.Port.{World, Service}
use openchronicle_mcp.Service.Backfill.{
  BackfillResult, nothing_done, backfill_chunks, is_candidate, backfill, backfill_listed,
}
use openchronicle_mcp.Service.Settled.{Holds, Settled}
use openchronicle_mcp.Service.Complete.{backfill_chunks-Advances}

-- `list_memory(limit=None, pinned_only=False, project_id=project_id)`.
abbrev pub items_of : Option String → List MemoryRow → List MemoryItem
items_of project_id ms =
    map row_to_memory_item (sort_by pinned_then_newer (filter (list_where (all_of project_id)) ms))

list_memory-items :
    (project_id : Option String) (s : Store)
    → list_memory (all_of project_id) s ≡ (ok (items_of project_id s.memories), s)
unfolding list_memory
list_memory-items project_id s = refl

All-items :
    (P : MemoryItem → Type 0) (rows : List MemoryRow)
    → All (λ r. P (row_to_memory_item r)) rows
    → All P (map row_to_memory_item rows)
All-items P [] h = tt
All-items P (r ∷ rs) h = (h.0, All-items P rs h.1)

row-Holds :
    (ms : List MemoryRow) (r : MemoryRow)
    → find memory_key r.id ms ≡ some r
    → Holds ms (row_to_memory_item r)
row-Holds ms r f = rw f (ground (arith, eq_iff r.content r.content))

items-Hold :
    (project_id : Option String) (ms : List MemoryRow)
    → IsUnique memory_key ms
    → All (Holds ms) (items_of project_id ms)
items-Hold project_id ms u =
    let held =
      All-imp _ (λ r. Holds ms (row_to_memory_item r)) (row-Holds ms) ms
        (IsUnique-find memory_key ms u) in
    let matching = filter (list_where (all_of project_id)) ms in
    All-items (Holds ms) (sort_by pinned_then_newer matching) (
      All-sort_by pinned_then_newer (λ r. Holds ms (row_to_memory_item r)) matching
        (All-filter (λ r. Holds ms (row_to_memory_item r)) (list_where (all_of project_id)) ms
          held))

module _ (w : World) (revision : Option String) where
  -- What was no candidate stays current; what was one has become current.
  All-Settled :
      (force : Bool) (s s' : Store) (items : List MemoryItem)
      → ((j : MemoryItem) → Holds s.memories j → Settled w revision s j → Settled w revision s' j)
      → All (Holds s.memories) items
      → All (Settled w revision s') (filter (is_candidate w revision force s) items)
      → All (Settled w revision s') items
  All-Settled force s s' [] kept h t = tt
  All-Settled force s s' (i ∷ is) kept h t = elim (Bool-cases (is_candidate w revision force s i)) [
    | inl candidate ↦
        let t' = subst (All (Settled w revision s')) (candidate_in candidate) t in
        (t'.0, All-Settled force s s' is kept h.1 t'.1)
    | inr current ↦ (
      kept i h.0 (ground arith),
      All-Settled force s s' is kept h.1
          (subst (All (Settled w revision s')) (candidate_out current) t),
    )
  ]
    where
      candidate_in :
          is_candidate w revision force s i ≡ true
          → filter (is_candidate w revision force s) (i ∷ is)
            ≡ i ∷ filter (is_candidate w revision force s) is
      candidate_in e = rw e refl

      candidate_out :
          is_candidate w revision force s i ≡ false
          → filter (is_candidate w revision force s) (i ∷ is)
            ≡ filter (is_candidate w revision force s) is
      candidate_out e = rw e refl

  no_candidate :
      (s : Store) (items : List MemoryItem)
      → All (Settled w revision s) items
      → filter (is_candidate w revision false s) items ≡ []
  no_candidate s [] t = refl
  no_candidate s (i ∷ is) t = rw t.0 (no_candidate s is t.1)

  idle_backfill :
      (project_id : Option String) (sv : Service)
      → All (Settled w revision sv.store) (items_of project_id sv.store.memories)
      → backfill w revision project_id false sv ≡ (ok nothing_done, sv)
  unfolding backfill backfill_listed backfill_chunks
  idle_backfill project_id sv t =
      rw (list_memory-items project_id sv.store)
        (rw (no_candidate sv.store (items_of project_id sv.store.memories) t) refl)

  abbrev candidates_of : Option String → Bool → Service → List MemoryItem
  candidates_of project_id force sv =
      filter (is_candidate w revision force sv.store) (items_of project_id sv.store.memories)

  backfill_lem :
      (project_id : Option String) (force : Bool) (sv : Service)
      → backfill w revision project_id force sv ≡ (
          let (c, t) =
            backfill_chunks
              (length (candidates_of project_id force sv))
              w
              revision
              (candidates_of project_id force sv)
              (nothing_done, sv) in
          (ok c, t))
  unfolding backfill backfill_listed
  backfill_lem project_id force sv = rw (list_memory-items project_id sv.store) refl

  completed :
      ((n : ℕ) (s : Store) → w.meanwhile n s ≡ s)
      → (project_id : Option String) (force : Bool) (sv : Service)
      → IsUnique memory_key sv.store.memories
      → (c : BackfillResult) × (sv' : Service) × (backfill w revision project_id force sv
          ≡ (ok c, sv'))
        × (c.failed ≡ 0 → backfill w revision project_id false sv' ≡ (ok nothing_done, sv'))
  completed quiet project_id force sv u =
      let s = sv.store in
      let items = items_of project_id s.memories in
      let candidates = candidates_of project_id force sv in
      let (c, sv') = backfill_chunks (length candidates) w revision candidates (nothing_done, sv) in
      let held = items-Hold project_id s.memories u in
      let p =
        backfill_chunks-Advances w revision quiet (length candidates) candidates nothing_done sv
          (omega arith)
          (All-filter (Holds s.memories) (is_candidate w revision force s) items held) in
      (
        c,
        sv',
        backfill_lem project_id force sv,
        λ none_failed. idle_backfill project_id sv' (
            subst (λ ms. All (Settled w revision sv'.store) (items_of project_id ms))
              (sym p.same_memories)
              (All-Settled force s sv'.store items p.kept held (p.done none_failed))),
      )

  -- While no other thread writes, the backfill after one that reported no failure, for the same
  -- scope and revision, finds no candidate: it does nothing and changes nothing.
  pub backfill-settles :
      ((n : ℕ) (s : Store) → w.meanwhile n s ≡ s)
      → (project_id : Option String) (force : Bool) (sv : Service)
      → IsUnique memory_key sv.store.memories
      → (c : BackfillResult) (sv' : Service) → backfill w revision project_id force sv ≡ (ok c, sv')
      → c.failed ≡ 0
      → backfill w revision project_id false sv' ≡ (ok nothing_done, sv')
  backfill-settles quiet project_id force sv u c sv' e none_failed =
      let (c0, sv0, e0, settles) = completed quiet project_id force sv u in
      let pair : (ok c0, sv0) ≡ (ok c, sv') = sym e0 ∙ e in
      let later : sv0 ≡ sv' = ap (λ r. r.1) pair in
      let counts : c0 ≡ c = ok-injective (ap (λ r. r.0) pair) in
      subst (λ t. backfill w revision project_id false t ≡ (ok nothing_done, t)) later
        (settles (ap (λ x. x.failed) counts ∙ none_failed))
    where
      ok-injective : {a b : BackfillResult} → ok a ≡ ok b → a ≡ b
      ok-injective h = cc
