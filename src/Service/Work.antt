-- ===== src/Service/Work.antt =====
-- The counts of `embedding_status` against the work of a backfill.
use openchronicle_mcp.Base.{
  ℕ, zero, suc, ◌+◌, ◌≤◌, ◌≡◌, refl, ap, sym, ◌∙◌, Bool, true, false, not, ◌&&◌, Option, none, some,
  List, [], ◌∷◌, String, arith, eq_iff, length, filter, count, count-ext, count-map, count-sort_by,
  length-filter-eq-count, sort_by, All, is_some, pos, minus, filter-all_true,
}
use openchronicle_mcp.Table.{find, has}
use openchronicle_mcp.Table.Join.{passes, count-not, join_sides}
use openchronicle_mcp.Domain.{ok}
use openchronicle_mcp.Store.Conn.{
  Status, embedded, content_too_long, MemoryRow, EmbeddingRow, Store, memory_key, embedding_key,
}
use openchronicle_mcp.Store.Memory.{count_memory, pinned_then_newer, row_to_memory_item}
use openchronicle_mcp.Store.Embedding.{
  of_status, count_embeddings, stale_embedding_counts, count_unembeddable_embeddings, in_space,
  hash_current, unmoved, is_tombstone,
}
use openchronicle_mcp.Store.Valid.{IsValid}
use openchronicle_mcp.Store.Laws.{split_counts, fresh_count}
use openchronicle_mcp.Service.Port.{World, Snapshot, names_space, current_row, is_current}
use openchronicle_mcp.Service.Backfill.{is_candidate}
use openchronicle_mcp.Service.Rerun.{items_of}
use openchronicle_mcp.Service.Status.{EmbeddingStatus, active_space, embedding_status}

minus-pos : (k m n : ℕ) → k + n ≡ m → minus m n ≡ pos k
minus-pos k m zero h = ap pos (omega (arith, h))
minus-pos k zero (suc n) h = absurd (omega (arith, h))
minus-pos k (suc m) (suc n) h = minus-pos k m n (omega (arith, h))

count-All :
    {A : Type 0} (p : A → Bool) (xs : List A) → All (λ x. p x ≡ true) xs → count p xs ≡ length xs
count-All p [] h = refl
count-All p (x ∷ xs) h = ground (arith, h.0, count-All p xs h.1)

is_some-passes : {A : Type 0} (o : Option A) → is_some o ≡ passes (λ a. true) o
is_some-passes none = refl
is_some-passes (some a) = refl

class_counts :
    (es : List EmbeddingRow)
    → length (filter (of_status (some embedded)) es) + count is_tombstone es ≡ length es
class_counts [] = refl
class_counts (e ∷ es) = go e.status refl (class_counts es)
  where
    go :
        (st : Status)
        → e.status ≡ st
        → length (filter (of_status (some embedded)) es) + count is_tombstone es ≡ length es
        → length (filter (of_status (some embedded)) (e ∷ es)) + count is_tombstone (e ∷ es)
          ≡ length (e ∷ es)
    go embedded h rest = rw h (omega (arith, rest))
    go content_too_long h rest = rw h (omega (arith, rest))

filter-and_le :
    {A : Type 0} (p q r : A → Bool) (xs : List A)
    → length (filter (λ x. p x && q x && r x) xs) ≤ count p xs
filter-and_le p q r [] = omega arith
filter-and_le p q r (x ∷ xs) = ground (arith, filter-and_le p q r xs)

module _ (w : World) (value : Option String) where
  abbrev pub verified : Snapshot
  verified = record { known = true; value = value }

  -- The row is of the active space and its content is the memory's.
  abbrev serves : EmbeddingRow → MemoryRow → Bool
  serves e m = names_space w value m.content e

  current-passes :
      (m : MemoryRow) (o : Option EmbeddingRow)
      → current_row w value m.content o ≡ passes (λ e. serves e m) o
  current-passes m none = refl
  current-passes m (some e) = refl

  fresh-passes :
      (ms : List MemoryRow) (e : EmbeddingRow)
      → (in_space (active_space w verified) e && hash_current w.hash_content ms e)
        ≡ passes (serves e) (find memory_key e.memory_id ms)
  fresh-passes ms e = go (find memory_key e.memory_id ms)
    where
      go :
          (o : Option MemoryRow)
          → (in_space (active_space w verified) e && unmoved w.hash_content e.content_hash o)
            ≡ passes (serves e) o
      go none = ground arith
      go (some m) = ground (
        arith,
        eq_iff (w.hash_content m.content) e.content_hash,
        eq_iff e.content_hash (w.hash_content m.content),
      )

  module _ (s : Store) (v : IsValid s.db) where
    -- A memory is current exactly when a row is fresh for it, counted from either side.
    current_count :
        count (λ m. is_current w value s m.id m.content) s.memories
        ≡ fresh_count w.hash_content (active_space w verified) s.memories s.embeddings
    unfolding is_current fresh_count
    current_count =
        count-ext _ _ s.memories (λ m. current-passes m (find embedding_key m.id s.embeddings))
        ∙ sym (
            join_sides embedding_key memory_key serves s.embeddings s.memories v.embeddings_unique
              v.memories_unique)
        ∙ sym (count-ext _ _ s.embeddings (fresh-passes s.memories))
        ∙ sym (length-filter-eq-count _ s.embeddings)

    abbrev pub lacks_row : MemoryRow → Bool
    lacks_row m = not (has embedding_key m.id s.embeddings)

    with_row : count (λ m. has embedding_key m.id s.embeddings) s.memories ≡ length s.embeddings
    with_row =
        count-ext _ _ s.memories (λ m. is_some-passes (find embedding_key m.id s.embeddings))
        ∙ sym (
            join_sides embedding_key memory_key (λ e m. true) s.embeddings s.memories
              v.embeddings_unique v.memories_unique)
        ∙ sym (
            count-ext _ _ s.embeddings
              (λ e. is_some-passes (find memory_key e.memory_id s.memories)))
        ∙ count-All _ s.embeddings v.memories_met

    no_row : count lacks_row s.memories + length s.embeddings ≡ length s.memories
    no_row =
        omega (arith, with_row, count-not (λ m. has embedding_key m.id s.embeddings) s.memories)

    -- What the next backfill of the whole corpus would work on.
    abbrev pub backlog : ℕ
    backlog = length (filter (is_candidate w value false s) (items_of none s.memories))

    backlog-count : backlog ≡ count (λ m. not (is_current w value s m.id m.content)) s.memories
    backlog-count =
        length-filter-eq-count _ (items_of none s.memories)
        ∙ count-map row_to_memory_item (is_candidate w value false s)
            (sort_by pinned_then_newer (filter (λ m. true) s.memories))
        ∙ count-sort_by pinned_then_newer (λ m. not (is_current w value s m.id m.content))
            (filter (λ m. true) s.memories)
        ∙ ap (count _) (filter-all_true s.memories)

    backlog_lem :
        backlog + count (λ m. is_current w value s m.id m.content) s.memories ≡ length s.memories
    backlog_lem =
        omega
          (arith, backlog-count, count-not (λ m. is_current w value s m.id m.content) s.memories)

    abbrev pub tombstones : ℕ
    tombstones = count is_tombstone s.embeddings

    -- The counts against the tables.
    pub record Overview (r : EmbeddingStatus) : Type 0 where
      pub total : r.total_memories ≡ length s.memories
      pub lacking : r.missing ≡ pos (count lacks_row s.memories)
      pub classes : r.embedded_rows + tombstones ≡ length s.embeddings
      pub parked : r.unembeddable ≤ tombstones
      pub buckets : r.space_mismatch + r.content_mismatch ≡ r.stale
      pub work : count lacks_row s.memories + r.stale ≡ backlog

    -- Where the keys are unique and the references met, embedding_status with a verified revision
    -- answers and changes nothing: `missing` counts the memories with no row, the ok rows and the
    -- tombstones make up the table, `unembeddable` is at most the tombstones, `stale` is the sum of
    -- its buckets, and `missing` plus `stale` is the number of candidates of a backfill of the whole
    -- corpus at that revision.
    pub embedding_status-Overview :
        (r : EmbeddingStatus) × (embedding_status w verified s ≡ (ok r, s)) × Overview r
    unfolding embedding_status count_memory count_embeddings stale_embedding_counts
        count_unembeddable_embeddings
    embedding_status-Overview = (
      _,
      refl,
      record {
        total = ap length (filter-all_true s.memories);
        lacking =
            rw (filter-all_true s.memories)
              (rw (filter-all_true s.embeddings) (minus-pos _ _ _ no_row));
        classes = class_counts s.embeddings;
        parked =
            filter-and_le is_tombstone (in_space (active_space w verified))
              (hash_current w.hash_content s.memories) s.embeddings;
        buckets = refl;
        work = omega (
          arith,
          no_row,
          backlog_lem,
          current_count,
          split_counts w.hash_content (active_space w verified) s.memories s.embeddings
              v.memories_met,
        );
      },
    )
