-- ===== src/Service/Backfill.antt =====
-- `generate_missing` and `_backfill`.
use openchronicle_mcp.Base.{
  ℕ, zero, suc, ◌+◌, Bool, true, false, not, ◌||◌, Option, none, some, List, [], ◌∷◌, map, String,
  ◌==◌, if◌then◌else◌, filter, length, take, drop,
}
use openchronicle_mcp.Domain.{Error, Result, ok, err, other_failure, revision_unknown, MemoryItem}
use openchronicle_mcp.Store.Conn.{Store, embedded}
use openchronicle_mcp.Store.Memory.{list_memory, all_of}
use openchronicle_mcp.Service.Port.{
  World, Snapshot, Service, record_failure, record_success, is_content_too_long, embed_single,
  embed_batch, publish, write_tombstone, is_current,
}

-- BackfillResult, without the elapsed time.
pub record BackfillResult : Type 0 where
  pub generated : ℕ
  pub failed : ℕ
  pub tombstoned : ℕ
  pub skipped : Bool

pub data Outcome : Type 0 where
  run_skipped run_ok run_partial run_failed : Outcome

unfoldable pub outcome : BackfillResult → Outcome
outcome r =
    if r.skipped
    then run_skipped
    else if r.failed == 0
    then run_ok
    else if r.generated == 0
    then run_failed
    else run_partial

abbrev pub nothing_done : BackfillResult
nothing_done = record { generated = 0; failed = 0; tombstoned = 0; skipped = false }

-- The counters and the service, as the loop carries them.
abbrev pub Run : Type 0
Run = BackfillResult × Service

abbrev pub count_generated : BackfillResult → BackfillResult
count_generated c = record c { generated = c.generated + 1 }

abbrev pub count_failed : BackfillResult → Service → Run
count_failed c sv = (record c { failed = c.failed + 1 }, record_failure "backfill" sv)

abbrev pub parked : BackfillResult → Result Bool × Service → Run
parked c (ok true, sv) = (record c { tombstoned = c.tombstoned + 1 }, sv)
parked c (ok false, sv) = (c, sv)
parked c (err e, sv) = count_failed c sv

-- The `except` arm of the item loop.
unfoldable pub item_failed :
    World → Option String → MemoryItem → BackfillResult → Error → Service → Run
item_failed w revision item c e sv =
    if is_content_too_long e
    then parked c (write_tombstone w revision item.id item.content sv)
    else count_failed c sv

abbrev pub item_saved :
    World → Option String → MemoryItem → BackfillResult → Result Bool × Service → Run
item_saved w revision item c (ok true, sv) = (count_generated c, record_success sv)
item_saved w revision item c (ok false, sv) = (c, record_success sv)
item_saved w revision item c (err e, sv) = item_failed w revision item c e sv

abbrev pub item_embedded :
    World → Option String → MemoryItem → BackfillResult → Result (List ℕ) × Service → Run
item_embedded w revision item c (ok vec, sv) =
    item_saved w revision item c (publish w revision item.id item.content vec embedded sv)
item_embedded w revision item c (err e, sv) = item_failed w revision item c e sv

-- `vectors[i] if vectors is not None else self._embed_single(item.content)`.
abbrev pub vector_for :
    World → Option (List (List ℕ)) → MemoryItem → Service → Result (List ℕ) × Service
vector_for w none item sv = embed_single w item.content sv
vector_for w (some []) item sv = (err other_failure, sv)
vector_for w (some (v ∷ vs)) item sv = (ok v, sv)

abbrev pub next_vectors : Option (List (List ℕ)) → Option (List (List ℕ))
next_vectors none = none
next_vectors (some []) = some []
next_vectors (some (v ∷ vs)) = some vs

unfoldable pub backfill_item :
    World → Option String → Option (List (List ℕ)) → MemoryItem → Run → Run
backfill_item w revision vectors item (c, sv) =
    item_embedded w revision item c (vector_for w vectors item sv)

unfoldable pub backfill_items :
    World → Option String → Option (List (List ℕ)) → List MemoryItem → Run → Run
backfill_items w revision vectors [] run = run
backfill_items w revision vectors (item ∷ items) run =
    backfill_items w revision (next_vectors vectors) items
      (backfill_item w revision vectors item run)

-- A failed batch, or one with the wrong number of vectors, is retried item by item.
abbrev pub usable : ℕ → Result (List (List ℕ)) → Option (List (List ℕ))
usable n (ok vectors) = if length vectors == n then some vectors else none
usable n (err e) = none

abbrev content_of : MemoryItem → String
content_of i = i.content

abbrev chunk_answered :
    World
    → Option String
    → List MemoryItem
    → BackfillResult
    → Result (List (List ℕ)) × Service
    → Run
chunk_answered w revision chunk c (r, sv) =
    backfill_items w revision (usable (length chunk) r) chunk (c, sv)

unfoldable pub backfill_chunk : World → Option String → List MemoryItem → Run → Run
backfill_chunk w revision chunk (c, sv) =
    chunk_answered w revision chunk c (embed_batch w (map content_of chunk) sv)

-- _BACKFILL_CHUNK_SIZE.
abbrev pub chunk_size : ℕ
chunk_size = 32

-- `for start in range(0, len(candidates), 32)`: each turn takes at least one candidate, so their
-- number is fuel enough.
unfoldable pub backfill_chunks : ℕ → World → Option String → List MemoryItem → Run → Run
backfill_chunks zero w revision items run = run
backfill_chunks (suc fuel) w revision [] run = run
backfill_chunks (suc fuel) w revision (item ∷ items) run =
    backfill_chunks fuel w revision (drop chunk_size (item ∷ items))
      (backfill_chunk w revision (take chunk_size (item ∷ items)) run)

abbrev pub is_candidate : World → Option String → Bool → Store → MemoryItem → Bool
is_candidate w revision force s item = force || not (is_current w revision s item.id item.content)

unfoldable pub backfill_listed :
    World
    → Option String
    → Bool
    → Result (List MemoryItem) × Store
    → Service
    → Result BackfillResult × Service
backfill_listed w revision force (err e, s) sv = (err e, record sv { store = s })
backfill_listed w revision force (ok items, s) sv =
    let candidates = filter (is_candidate w revision force s) items in
    let (c, sv') =
      backfill_chunks (length candidates) w revision candidates
        (nothing_done, record sv { store = s }) in
    (ok c, sv')

-- `_backfill`.
unfoldable pub backfill :
    World → Option String → Option String → Bool → Service → Result BackfillResult × Service
backfill w revision project_id force sv =
    backfill_listed w revision force (list_memory (all_of project_id) sv.store) sv

-- A completed run over the whole corpus records the revision that it used.
abbrev pub reconcile :
    Option String
    → Option String
    → Result BackfillResult × Service
    → Result BackfillResult × Service
reconcile none revision (ok r, sv) = (ok r, record sv { reconciled_revision = some revision })
reconcile none revision (err e, sv) = (err e, sv)
reconcile (some p) revision (r, sv) = (r, sv)

-- `generate_missing`: `running` says that another backfill holds the lock; `refreshed` is the answer
-- of `refresh_revision(force=True)`.
unfoldable pub generate_missing :
    World → Bool → Snapshot → Option String → Bool → Service → Result BackfillResult × Service
generate_missing w running refreshed project_id force sv =
    if running
    then (ok (record nothing_done { skipped = true }), sv)
    else if not refreshed.known
    then (err revision_unknown, sv)
    else reconcile project_id refreshed.value (backfill w refreshed.value project_id force sv)
