-- ===== src/Service/Counted.antt =====
-- The counts of `_backfill`, for any provider and any other threads.
use openchronicle_mcp.Base.{
  ℕ, zero, suc, ◌+◌, ◌≤◌, Bool, true, false, Option, List, [], ◌∷◌, String, arith, length,
  length-take, length-drop, take, drop, Bool-cases, inl, inr,
}
use openchronicle_mcp.Domain.{Error, Result, ok, err, MemoryItem}
use openchronicle_mcp.Store.Conn.{embedded}
use openchronicle_mcp.Service.Port.{World, Service, is_content_too_long, publish, write_tombstone}
use openchronicle_mcp.Service.Backfill.{
  BackfillResult, Run, parked, item_failed, item_saved, item_embedded, vector_for, next_vectors,
  backfill_item, backfill_items, backfill_chunk, chunk_size, backfill_chunks,
}

abbrev pub handled : BackfillResult → ℕ
handled c = c.generated + c.failed + c.tombstoned

module _ (w : World) (revision : Option String) where
  parked_le :
      (c : BackfillResult) (r : Result Bool × Service) → handled (parked c r).0 ≤ handled c + 1
  parked_le c (ok true, sv) = omega arith
  parked_le c (ok false, sv) = omega arith
  parked_le c (err e, sv) = omega arith

  item_failed_le :
      (i : MemoryItem) (c : BackfillResult) (e : Error) (sv : Service)
      → handled (item_failed w revision i c e sv).0 ≤ handled c + 1
  unfolding item_failed
  item_failed_le i c e sv = elim (Bool-cases (is_content_too_long e)) [
    | inl long ↦ rw long (parked_le c (write_tombstone w revision i.id i.content sv))
    | inr other ↦ rw other (omega arith)
  ]

  item_saved_le :
      (i : MemoryItem) (c : BackfillResult) (r : Result Bool × Service)
      → handled (item_saved w revision i c r).0 ≤ handled c + 1
  item_saved_le i c (ok true, sv) = omega arith
  item_saved_le i c (ok false, sv) = omega arith
  item_saved_le i c (err e, sv) = item_failed_le i c e sv

  item_embedded_le :
      (i : MemoryItem) (c : BackfillResult) (r : Result (List ℕ) × Service)
      → handled (item_embedded w revision i c r).0 ≤ handled c + 1
  item_embedded_le i c (ok vec, sv) =
      item_saved_le i c (publish w revision i.id i.content vec embedded sv)
  item_embedded_le i c (err e, sv) = item_failed_le i c e sv

  backfill_items_le :
      (items : List MemoryItem) (vectors : Option (List (List ℕ))) (run : Run)
      → handled (backfill_items w revision vectors items run).0 ≤ handled run.0 + length items
  unfolding backfill_items backfill_item
  backfill_items_le [] vectors run = omega arith
  backfill_items_le (i ∷ is) vectors (c, sv) = omega (
    arith,
    item_embedded_le i c (vector_for w vectors i sv),
    backfill_items_le is (next_vectors vectors)
        (item_embedded w revision i c (vector_for w vectors i sv)),
  )

  backfill_chunk_le :
      (items : List MemoryItem) (run : Run)
      → handled (backfill_chunk w revision items run).0 ≤ handled run.0 + length items
  unfolding backfill_chunk
  backfill_chunk_le items (c, sv) = backfill_items_le items _ (c, _)

  -- However often the provider fails and whatever other threads write meanwhile, the loop over the
  -- chunks adds to generated, failed and tombstoned together at most the number of its candidates.
  pub backfill_chunks_le :
      (fuel : ℕ) (items : List MemoryItem) (run : Run)
      → handled (backfill_chunks fuel w revision items run).0 ≤ handled run.0 + length items
  unfolding backfill_chunks
  backfill_chunks_le zero items run = omega arith
  backfill_chunks_le (suc fuel) [] run = omega arith
  backfill_chunks_le (suc fuel) (i ∷ is) run = omega (
    arith,
    backfill_chunk_le (take chunk_size (i ∷ is)) run,
    backfill_chunks_le fuel (drop chunk_size (i ∷ is))
        (backfill_chunk w revision (take chunk_size (i ∷ is)) run),
    length-take chunk_size (i ∷ is),
    length-drop chunk_size (i ∷ is),
  )
