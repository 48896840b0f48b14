-- ===== src/Service/Complete.antt =====
-- The loops of `_backfill` when no other thread writes: what they do to their candidates.
use openchronicle_mcp.Base.{
  ℕ, zero, suc, ◌+◌, ◌≤◌, ◌≡◌, refl, ◌∙◌, sym, Bool, true, false, Option, none, some, List, [], ◌∷◌,
  ◌++◌, map, String, arith, inl, inr, Bool-cases, All, All-append, All-take, All-drop, length,
  length-drop, take, drop, take-append-drop,
}
use mathlib.Core.Path.{subst}
use openchronicle_mcp.Domain.{Error, Result, ok, err, MemoryItem}
use openchronicle_mcp.Store.Conn.{Status, embedded, Store}
use openchronicle_mcp.Service.Port.{
  World, Service, is_content_too_long, answered, embed_single, embed_batch, publish,
  write_tombstone,
}
use openchronicle_mcp.Service.Backfill.{
  BackfillResult, Run, parked, item_failed, item_saved, item_embedded, vector_for, next_vectors,
  backfill_item, backfill_items, usable, backfill_chunk, chunk_size, backfill_chunks,
}
use openchronicle_mcp.Service.Settled.{Holds, Settled, Publishes, publish-Publishes}

module _ (w : World) (revision : Option String) where
  -- What a part of the loop does for its items, from one state to a later one.
  pub record Progress (items : List MemoryItem) (c : BackfillResult) (s : Store)
      (c' : BackfillResult) (s' : Store) : Type 0 where
    pub same_memories : s'.memories ≡ s.memories
    pub kept :
        (j : MemoryItem) → Holds s.memories j → Settled w revision s j → Settled w revision s' j
    pub no_less : c.failed ≤ c'.failed
    pub done : c'.failed ≡ c.failed → All (Settled w revision s') items

  abbrev pub Advances : List MemoryItem → BackfillResult → Store → Run → Type 0
  Advances items c s (c', sv') = Progress items c s c' sv'.store

  Holds-later :
      (s s' : Store) (items : List MemoryItem)
      → s'.memories ≡ s.memories
      → All (Holds s.memories) items
      → All (Holds s'.memories) items
  Holds-later s s' items e h = subst (λ ms. All (Holds ms) items) (sym e) h

  Settled-later :
      (s s' : Store) (items : List MemoryItem)
      → ((j : MemoryItem) → Holds s.memories j → Settled w revision s j → Settled w revision s' j)
      → All (Holds s.memories) items
      → All (Settled w revision s) items
      → All (Settled w revision s') items
  Settled-later s s' [] k h t = tt
  Settled-later s s' (i ∷ is) k h t = (k i h.0 t.0, Settled-later s s' is k h.1 t.1)

  Progress-append :
      (xs ys : List MemoryItem) (c c' c'' : BackfillResult) (s s' s'' : Store)
      → All (Holds s.memories) xs
      → Progress xs c s c' s'
      → Progress ys c' s' c'' s''
      → Progress (xs ++ ys) c s c'' s''
  Progress-append xs ys c c' c'' s s' s'' h p q = record {
    same_memories = q.same_memories ∙ p.same_memories;
    kept = λ j hj t. q.kept j (subst (λ ms. Holds ms j) (sym p.same_memories) hj) (p.kept j hj t);
    no_less = omega (arith, p.no_less, q.no_less);
    done = λ e.
        let first : c'.failed ≡ c.failed = omega (arith, p.no_less, q.no_less) in
        let second : c''.failed ≡ c'.failed = omega (arith, p.no_less, q.no_less) in
        All-append (Settled w revision s'') xs ys
          (Settled-later s' s'' xs q.kept (Holds-later s s' xs p.same_memories h) (p.done first))
          (q.done second);
  }

  Progress-nil : (c : BackfillResult) (s : Store) → Progress [] c s c s
  Progress-nil c s = record {
    same_memories = refl;
    kept = λ j h t. t;
    no_less = omega arith;
    done = λ e. tt;
  }

  module _ (i : MemoryItem) (c : BackfillResult) where
    failed_Progress : (s : Store) → Progress (i ∷ []) c s (record c { failed = c.failed + 1 }) s
    failed_Progress s = record {
      same_memories = refl;
      kept = λ j h t. t;
      no_less = omega arith;
      done = λ e. absurd (omega arith);
    }

    published_Progress :
        (sv : Service) (r : Result Bool) (t : Service) (c' : BackfillResult)
        → Publishes w revision i sv (r, t)
        → c'.failed ≡ c.failed
        → Progress (i ∷ []) c sv.store c' t.store
    published_Progress sv r t c' p e = record {
      same_memories = p.same_memories;
      kept = p.kept;
      no_less = omega arith;
      done = λ _. (p.settled, tt);
    }

    saved-Advances :
        (sv : Service) (r : Result Bool) (t : Service)
        → Publishes w revision i sv (r, t)
        → Advances (i ∷ []) c sv.store (item_saved w revision i c (r, t))
    saved-Advances sv (ok true) t p = published_Progress sv (ok true) t _ p refl
    saved-Advances sv (ok false) t p = let e = p.accepted in cc
    saved-Advances sv (err x) t p = let e = p.accepted in cc

    parked-Advances :
        (sv : Service) (r : Result Bool) (t : Service)
        → Publishes w revision i sv (r, t)
        → Advances (i ∷ []) c sv.store (parked c (r, t))
    parked-Advances sv (ok true) t p = published_Progress sv (ok true) t _ p refl
    parked-Advances sv (ok false) t p = let e = p.accepted in cc
    parked-Advances sv (err x) t p = let e = p.accepted in cc

    item_failed-Advances :
        (e : Error) (sv : Service)
        → Holds sv.store.memories i
        → Advances (i ∷ []) c sv.store (item_failed w revision i c e sv)
    unfolding item_failed write_tombstone
    item_failed-Advances e sv h = elim (Bool-cases (is_content_too_long e)) [
      | inl long ↦
          let (r, t) = publish w revision i.id i.content [] Status.content_too_long sv in
          rw long (
            parked-Advances sv r t (publish-Publishes w revision i [] Status.content_too_long sv h))
      | inr other ↦ rw other (failed_Progress sv.store)
    ]

    item_embedded-Advances :
        (r : Result (List ℕ)) (sv : Service)
        → Holds sv.store.memories i
        → Advances (i ∷ []) c sv.store (item_embedded w revision i c (r, sv))
    item_embedded-Advances (ok vec) sv h =
        let (r, t) = publish w revision i.id i.content vec embedded sv in
        saved-Advances sv r t (publish-Publishes w revision i vec embedded sv h)
    item_embedded-Advances (err e) sv h = item_failed-Advances e sv h

  module _ (quiet : (n : ℕ) (s : Store) → w.meanwhile n s ≡ s) where
    vector_for-store :
        (vectors : Option (List (List ℕ))) (i : MemoryItem) (sv : Service)
        → (vector_for w vectors i sv).1.store ≡ sv.store
    unfolding embed_single
    vector_for-store none i sv = quiet sv.calls sv.store
    vector_for-store (some []) i sv = refl
    vector_for-store (some (v ∷ vs)) i sv = refl

    backfill_item-Advances :
        (vectors : Option (List (List ℕ))) (i : MemoryItem) (c : BackfillResult) (sv : Service)
        → Holds sv.store.memories i
        → Advances (i ∷ []) c sv.store (backfill_item w revision vectors i (c, sv))
    unfolding backfill_item
    backfill_item-Advances vectors i c sv h =
        let (r, t) = vector_for w vectors i sv in
        let e : t.store ≡ sv.store = vector_for-store vectors i sv in
        subst (λ s. Advances (i ∷ []) c s (item_embedded w revision i c (r, t))) e
          (item_embedded-Advances i c r t (subst (λ s. Holds s.memories i) (sym e) h))

    backfill_items-Advances :
        (items : List MemoryItem) (vectors : Option (List (List ℕ))) (c : BackfillResult)
        (sv : Service)
        → All (Holds sv.store.memories) items
        → Advances items c sv.store (backfill_items w revision vectors items (c, sv))
    unfolding backfill_items
    backfill_items-Advances [] vectors c sv h = Progress-nil c sv.store
    backfill_items-Advances (i ∷ is) vectors c sv h =
        let (c', sv') = backfill_item w revision vectors i (c, sv) in
        let (c'', sv'') = backfill_items w revision (next_vectors vectors) is (c', sv') in
        let one = backfill_item-Advances vectors i c sv h.0 in
        Progress-append (i ∷ []) is c c' c'' sv.store sv'.store sv''.store (h.0, tt) one
          (backfill_items-Advances is (next_vectors vectors) c' sv'
            (Holds-later sv.store sv'.store is one.same_memories h.1))

    backfill_chunk-Advances :
        (items : List MemoryItem) (c : BackfillResult) (sv : Service)
        → All (Holds sv.store.memories) items
        → Advances items c sv.store (backfill_chunk w revision items (c, sv))
    unfolding backfill_chunk embed_batch
    backfill_chunk-Advances items c sv h =
        let e = quiet sv.calls sv.store in
        let r = w.port.embed_batch sv.calls (map (λ x. x.content) items) in
        subst
          (λ s.
            Advances items c s
              (backfill_items w revision (usable (length items) r) items (c, answered w sv)))
          e
          (backfill_items-Advances items (usable (length items) r) c (answered w sv)
            (subst (λ s. All (Holds s.memories) items) (sym e) h))

    pub backfill_chunks-Advances :
        (fuel : ℕ) (items : List MemoryItem) (c : BackfillResult) (sv : Service)
        → length items ≤ fuel
        → All (Holds sv.store.memories) items
        → Advances items c sv.store (backfill_chunks fuel w revision items (c, sv))
    unfolding backfill_chunks
    backfill_chunks-Advances zero [] c sv n h = Progress-nil c sv.store
    backfill_chunks-Advances zero (i ∷ is) c sv n h = absurd (omega arith)
    backfill_chunks-Advances (suc fuel) [] c sv n h = Progress-nil c sv.store
    backfill_chunks-Advances (suc fuel) (i ∷ is) c sv n h =
        let items = i ∷ is in
        let now = take chunk_size items in
        let later = drop chunk_size items in
        let (c', sv') = backfill_chunk w revision now (c, sv) in
        let (c'', sv'') = backfill_chunks fuel w revision later (c', sv') in
        let first =
          backfill_chunk-Advances now c sv
            (All-take (Holds sv.store.memories) chunk_size items h) in
        let shorter : length later ≤ fuel = omega (arith, length-drop chunk_size items) in
        subst (λ xs. Progress xs c sv.store c'' sv''.store) (take-append-drop chunk_size items)
          (Progress-append now later c c' c'' sv.store sv'.store sv''.store
            (All-take (Holds sv.store.memories) chunk_size items h) first
            (backfill_chunks-Advances fuel later c' sv' shorter (
              Holds-later sv.store sv'.store later first.same_memories
                (All-drop (Holds sv.store.memories) chunk_size items h))))
