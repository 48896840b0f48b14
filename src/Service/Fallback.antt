-- ===== src/Service/Fallback.antt =====
-- `search_hybrid` as a whole: what it shows, and what it does when the provider fails.
use openchronicle_mcp.Base.{
  Bool-cases, inl, inr, ℕ, ◌+◌, ◌*◌, ◌≤◌, ◌≡◌, refl, ap, sym, ◌∙◌, Bool, true, false, List, ◌++◌,
  map, String, arith, length, All, take, drop, length-take_le,
}
use openchronicle_mcp.Table.{IsUnique}
use openchronicle_mcp.Domain.{Error, Result, ok, err, operational, MemoryItem}
use openchronicle_mcp.Store.Conn.{memory_key}
use openchronicle_mcp.Search.Ranked.{Engine, Query}
use openchronicle_mcp.Search.Scored.{
  ScoredMemory, pinned_hit, keyword_hits, keyword_hits-take, page-append_take_le,
}
use openchronicle_mcp.Search.Keyword.{
  float_set, unfloated, item_id, keyword_stream, search_keyword, search_keyword_answered,
  search_keyword_refused,
}
use openchronicle_mcp.Service.Port.{World, Service}
use openchronicle_mcp.Service.Semantic.{Floats, Readings, semantic_search, page_of}
use openchronicle_mcp.Service.Hybrid.{Searcher, fuse, search_hybrid, degraded}
use openchronicle_mcp.Service.Shown.{
  IsShown, HitShown, float_set-IsShown, keyword_hits-shown, page-shown,
}
use openchronicle_mcp.Service.Halves.{
  fetched, fetched-IsShown, readable, readable_page, unreadable_page, keyword_side_lem,
  keyword_side_refused, merge-Merged,
}

-- How many provider failures an exception counts for.
abbrev pub provider_failures : Error → ℕ
provider_failures Error.revision_changed = 0
provider_failures Error.content_too_long = 0
provider_failures x = 1

degraded-counts :
    (x : Error) (sr : Searcher)
    → ((degraded x sr).service.store ≡ sr.service.store)
      × ((degraded x sr).search_failure_count ≡ sr.search_failure_count + provider_failures x)
      × ((degraded x sr).service.failure_count ≡ sr.service.failure_count + provider_failures x)
degraded-counts x sr = (ground arith, ground arith, ground arith)

-- The answer of a search: hits that pass the query's filters, no more than asked for.
pub record Answers {F : Type 0} (q : Query) (include_pinned : Bool) (top_k : ℕ)
    (r : Result (List (ScoredMemory F))) : Type 0 where
  pub hits : List (ScoredMemory F)
  pub returned : r ≡ ok hits
  pub number : length hits ≤ top_k
  pub visible : All (HitShown q include_pinned) hits

module _ {F : Type 0} (q : Query) (top_k : ℕ) (include_pinned : Bool) (offset : ℕ) where
  pub page-Answers :
      (floated : List MemoryItem) (ranked : List (ScoredMemory F))
      → All (IsShown q include_pinned) floated
      → All (HitShown q include_pinned) ranked
      → Answers q include_pinned top_k (ok (page_of top_k offset floated ranked))
  page-Answers floated ranked a b = record {
    hits = page_of top_k offset floated ranked;
    returned = refl;
    number = length-take_le top_k (drop offset (map pinned_hit floated ++ ranked));
    visible = page-shown F q include_pinned top_k offset floated ranked a b;
  }

module _ {F : Type 0} (fl : Floats F) (order : List String → List String) (w : World)
    (rs : Readings) (e : Engine) (q : Query) (top_k : ℕ) (include_pinned : Bool) (offset : ℕ)
    (pinned_limit : ℕ) where
  abbrev search : Searcher → Result (List (ScoredMemory F)) × Searcher
  search = search_hybrid fl order w rs e q top_k include_pinned offset pinned_limit

  -- The semantic half of the search.
  abbrev pub semantic_half : Searcher → Result (List (String × F)) × Service
  semantic_half sr =
      semantic_search fl w rs q.text q.project_id q.tags
        (map item_id (float_set e q include_pinned pinned_limit sr.service.store.memories))
        ((top_k + offset) * 2) sr.service

  abbrev floated_of : Searcher → List MemoryItem
  floated_of sr = float_set e q include_pinned pinned_limit sr.service.store.memories

  abbrev fetched_of : Searcher → List MemoryItem
  fetched_of sr = fetched e q top_k include_pinned offset pinned_limit sr.service.store.memories

  abbrev fused :
      Searcher → Result (List (String × F)) × Service → Result (List (ScoredMemory F)) × Searcher
  fused sr = fuse fl order w rs e q top_k include_pinned offset (floated_of sr) (fetched_of sr) sr

  search_hybrid-fused :
      (sr : Searcher)
      → IsUnique memory_key sr.service.store.memories
      → readable e q top_k include_pinned offset pinned_limit ≡ true
      → search sr ≡ fused sr (semantic_half sr)
  unfolding search_hybrid
  search_hybrid-fused sr u h =
      rw (keyword_side_lem e q top_k include_pinned offset pinned_limit sr.service.store u h) refl

  fused-Answers :
      (sr : Searcher) (r : Result (List (String × F)) × Service)
      → Answers q include_pinned top_k (fused sr r).0
  fused-Answers sr (err x, sv) =
      page-Answers q top_k include_pinned offset (floated_of sr) (keyword_hits 1 (fetched_of sr))
        (float_set-IsShown e q include_pinned sr.service.store.memories pinned_limit)
        (keyword_hits-shown F q include_pinned 1 (fetched_of sr)
          (fetched-IsShown e q top_k include_pinned offset pinned_limit sr.service.store.memories))
  fused-Answers sr (ok ranked, sv) =
      let m =
        merge-Merged fl order q include_pinned (map item_id (floated_of sr)) (top_k + offset)
          (fetched_of sr) ranked sv.store in
      rw (m.returned) (
        page-Answers q top_k include_pinned offset (floated_of sr) m.hits
          (float_set-IsShown e q include_pinned sr.service.store.memories pinned_limit) m.visible)

  -- Where memory ids are unique, a hybrid search whose MATCH FTS5 accepts never raises, whatever the
  -- provider does: it returns at most `top_k` hits, floated pins included, and every hit carries all
  -- the tags, is in the project's scope or a pin without a project, and is no pin when pins are hidden.
  pub search_hybrid-Answers :
      (sr : Searcher)
      → IsUnique memory_key sr.service.store.memories
      → readable e q top_k include_pinned offset pinned_limit ≡ true
      → Answers q include_pinned top_k
          (search_hybrid fl order w rs e q top_k include_pinned offset pinned_limit sr).0
  search_hybrid-Answers sr u h =
      rw (search_hybrid-fused sr u h) (fused-Answers sr (semantic_half sr))

  search_hybrid_degrades :
      (sr : Searcher) (x : Error) (sv : Service)
      → IsUnique memory_key sr.service.store.memories
      → readable e q top_k include_pinned offset pinned_limit ≡ true
      → semantic_half sr ≡ (err x, sv)
      → (search sr).0
          ≡ (search_keyword e q top_k include_pinned offset pinned_limit sr.service.store).0
        × (search sr).1.service.store ≡ sv.store
        × (search sr).1.search_failure_count ≡ sr.search_failure_count + provider_failures x
        × (search sr).1.service.failure_count ≡ sv.failure_count + provider_failures x
  unfolding keyword_stream
  search_hybrid_degrades sr x sv u ready h =
      let answer = search_hybrid-fused sr u ready ∙ ap (fused sr) h in
      let counted = degraded-counts x (record sr { service = sv }) in
      (
        ap (λ r. r.0) answer
            ∙ same_page
            ∙ sym (
                ap (λ r. r.0)
                  (search_keyword_answered e q include_pinned pinned_limit top_k offset
                    sr.service.store u
                    (readable_page e q top_k include_pinned offset pinned_limit ready))),
        ap (λ r. r.1.service.store) answer ∙ counted.0,
        ap (λ r. r.1.search_failure_count) answer ∙ counted.1,
        ap (λ r. r.1.service.failure_count) answer ∙ counted.2,
      )
    where
      same_page :
          (fused sr (err x, sv)).0
          ≡ ok (
              take top_k (
                drop offset
                  (keyword_stream e q include_pinned pinned_limit sr.service.store.memories)))
      same_page = ap ok (
          ap (λ hits. page_of top_k offset (floated_of sr) hits)
            (keyword_hits-take ((top_k + offset) * 2) 1
              (unfloated e q include_pinned pinned_limit sr.service.store.memories))
          ∙ page-append_take_le offset top_k ((top_k + offset) * 2) (map pinned_hit (floated_of sr))
              _ (omega arith))

  pub search_hybrid_unread :
      (sr : Searcher)
      → IsUnique memory_key sr.service.store.memories
      → readable e q top_k include_pinned offset pinned_limit ≡ false
      → search sr ≡ (err operational, sr)
  unfolding search_hybrid
  search_hybrid_unread sr u h =
      rw (keyword_side_refused e q top_k include_pinned offset pinned_limit sr.service.store u h)
        refl

  -- What a degraded search does besides answering.
  pub data Degraded (sr : Searcher) (x : Error) (sv : Service) (after : Searcher) : Type 0 where
    counted :
        readable e q top_k include_pinned offset pinned_limit ≡ true
        → after.service.store ≡ sv.store
        → after.search_failure_count ≡ sr.search_failure_count + provider_failures x
        → after.service.failure_count ≡ sv.failure_count + provider_failures x
        → Degraded sr x sv after
    unread :
        readable e q top_k include_pinned offset pinned_limit ≡ false
        → after ≡ sr
        → Degraded sr x sv after

  -- Where memory ids are unique and the semantic half raises, whatever it raises, the hybrid search
  -- returns or raises what the keyword search does. If FTS5 accepts what the keyword side asks, the
  -- store is as the semantic half left it, a text too long for the model or a changing revision leaves
  -- both failure counters as they were, and any other exception adds one to each. If FTS5 refuses it,
  -- nothing changes.
  pub search_hybrid-search_keyword :
      (sr : Searcher) (x : Error) (sv : Service)
      → IsUnique memory_key sr.service.store.memories
      → semantic_half sr ≡ (err x, sv)
      → ((search sr).0
          ≡ (search_keyword e q top_k include_pinned offset pinned_limit sr.service.store).0)
        × Degraded sr x sv (search sr).1
  search_hybrid-search_keyword sr x sv u h =
      elim (Bool-cases (readable e q top_k include_pinned offset pinned_limit)) [
        | inl ready ↦
            let (same, store, searches, failures) = search_hybrid_degrades sr x sv u ready h in
            (same, counted ready store searches failures)
        | inr not_ready ↦
            let nothing = search_hybrid_unread sr u not_ready in
            (
              ap (λ r. r.0) nothing
                  ∙ sym (
                      ap (λ r. r.0)
                        (search_keyword_refused e q include_pinned pinned_limit top_k offset
                          sr.service.store u
                          (unreadable_page e q top_k include_pinned offset pinned_limit
                            not_ready))),
              unread not_ready (ap (λ r. r.1) nothing),
            )
      ]
