-- ===== src/Service/Hybrid.antt =====
-- `search_hybrid`. `order` is the order in which Python walks a set of texts.
use openchronicle_mcp.Base.{
  ℕ, ◌+◌, ◌*◌, Bool, not, ◌&&◌, Option, none, some, List, [], ◌∷◌, ◌++◌, map, String, str_eq,
  if◌then◌else◌, contains, sort_by, take,
}
use openchronicle_mcp.Table.{find}
use openchronicle_mcp.Domain.{Error, Result, ok, err, revision_changed, MemoryItem}
use openchronicle_mcp.Store.Conn.{Store, Action, pure, ◌>>=◌}
use openchronicle_mcp.Store.Memory.{get_memory}
use openchronicle_mcp.Search.Ranked.{Engine, Query, search_memory}
use openchronicle_mcp.Search.Scored.{ScoredMemory, Channel, keyword, semantic, hybrid, keyword_hits}
use openchronicle_mcp.Search.Keyword.{floated_pins, item_id}
use openchronicle_mcp.Service.Port.{World, Service, record_failure, record_success}
use openchronicle_mcp.Service.Semantic.{Floats, Readings, semantic_search, shown, page_of}

-- `_RRF_K`.
abbrev pub rrf_k : ℕ
rrf_k = 60

-- The service with the counter that only searches touch.
pub record Searcher : Type 0 where
  pub service : Service
  pub search_failure_count : ℕ

-- `set(a) | set(b)`, as a list that holds a text once.
unfoldable pub union : List String → List String → List String
union [] ys = ys
union (x ∷ xs) ys = if contains (xs ++ ys) x then union xs ys else x ∷ union xs ys

-- The 1-based position of an id.
unfoldable pub rank_from : ℕ → String → List String → Option ℕ
rank_from n id [] = none
rank_from n id (x ∷ xs) = if str_eq x id then some n else rank_from (n + 1) id xs

-- What an exception of the semantic side does to the counters.
abbrev pub degraded : Error → Searcher → Searcher
degraded revision_changed sr = sr
degraded Error.content_too_long sr = sr
degraded e sr = record sr {
  service = record_failure "search" sr.service;
  search_failure_count = sr.search_failure_count + 1;
}

module _ (e : Engine) (q : Query) (top_k : ℕ) (include_pinned : Bool) (offset : ℕ) where
  -- The pins that float and the keyword ranking of the others.
  abbrev pub keyword_side : ℕ → Action (List MemoryItem × List MemoryItem)
  keyword_side pinned_limit = do
    floated ← floated_pins e q include_pinned pinned_limit
    keyword_results ←
        search_memory e q ((top_k + offset) * 2) include_pinned 0 (map item_id floated)
    pure (floated, keyword_results)

-- `item_map`: a keyword hit, or the row of a semantic one.
abbrev or_get : String → Option MemoryItem → Action (Option MemoryItem)
or_get id (some i) = pure (some i)
or_get id none = get_memory id

abbrev pub look_up : List MemoryItem → String → Action (Option MemoryItem)
look_up keyword_results id = or_get id (find item_id id keyword_results)

module _ {F : Type 0} where
  abbrev pub ranked_id : String × F → String
  ranked_id c = c.0

  abbrev pub hit_of : ScoredMemory F × F → ScoredMemory F
  hit_of h = h.0

  abbrev similarity_of : Option (String × F) → Option F
  similarity_of none = none
  similarity_of (some c) = some c.1

  abbrev pub channel_of : Option ℕ → Option F → Channel
  channel_of (some kr) (some sim) = hybrid
  channel_of (some kr) none = keyword
  channel_of none sim = semantic

  module _ (fl : Floats F) (order : List String → List String) (q : Query) (include_pinned : Bool)
      (pinned_ids : List String) where
    -- The four `continue`s.
    abbrev pub fusable : MemoryItem → Bool
    fusable i = not (i.pinned && contains pinned_ids i.id) && shown q include_pinned i

    abbrev pub add_fusable : Option MemoryItem → List MemoryItem → List MemoryItem
    add_fusable none items = items
    add_fusable (some i) items = if fusable i then i ∷ items else items

    unfoldable pub fusable_items : List MemoryItem → List String → Action (List MemoryItem)
    fusable_items keyword_results [] = pure []
    fusable_items keyword_results (id ∷ ids) = do
      item ← look_up keyword_results id
      items ← fusable_items keyword_results ids
      pure (add_fusable item items)

    abbrev add_rank : F → Option ℕ → F
    add_rank score none = score
    add_rank score (some rank) = fl.add score (fl.reciprocal (rrf_k + rank))

    unfoldable pub fused_hit : List MemoryItem → List (String × F) → MemoryItem → ScoredMemory F × F
    fused_hit keyword_results semantic_ranked i =
        let kr = rank_from 1 i.id (map item_id keyword_results) in
        let sr = rank_from 1 i.id (map ranked_id semantic_ranked) in
        let sim = similarity_of (find ranked_id i.id semantic_ranked) in
        let score = add_rank (add_rank fl.zero kr) sr in
        (
          record {
            item = i;
            channel = channel_of kr sim;
            rrf_score = some score;
            semantic_similarity = sim;
            keyword_rank = kr;
          },
          score,
        )

    -- Reciprocal rank fusion.
    unfoldable pub merge : ℕ → List MemoryItem → List (String × F) → Action (List (ScoredMemory F))
    merge limit keyword_results semantic_ranked = do
      items ←
          fusable_items keyword_results
            (order (union (map item_id keyword_results) (map ranked_id semantic_ranked)))
      let rrf_scores =
          sort_by (λ a b. fl.less b.1 a.1) (map (fused_hit keyword_results semantic_ranked) items)
      pure (map hit_of (take limit rrf_scores))

  module _ (fl : Floats F) (order : List String → List String) (w : World) (rs : Readings)
      (e : Engine) (q : Query) (top_k : ℕ) (include_pinned : Bool) (offset : ℕ) where
    abbrev with_store :
        Searcher
        → Result (List (ScoredMemory F)) × Store
        → Result (List (ScoredMemory F)) × Searcher
    with_store sr (r, s) = (r, record sr { service = record sr.service { store = s } })

    -- Keyword hits alone, or the fusion.
    abbrev pub fuse :
        List MemoryItem
        → List MemoryItem
        → Searcher
        → Result (List (String × F)) × Service
        → Result (List (ScoredMemory F)) × Searcher
    fuse floated keyword_results sr (err x, sv) = (
      ok (page_of top_k offset floated (keyword_hits 1 keyword_results)),
      degraded x (record sr { service = sv }),
    )
    fuse floated keyword_results sr (ok semantic_ranked, sv) =
        let sr' : Searcher = record { service = record_success sv; search_failure_count = 0 } in
        with_store sr' (
          (do
            merged ←
                merge fl order q include_pinned (map item_id floated) (top_k + offset)
                  keyword_results semantic_ranked
            pure (page_of top_k offset floated merged))
            sv.store)

    abbrev semantic_side :
        Searcher
        → Result (List MemoryItem × List MemoryItem) × Store
        → Result (List (ScoredMemory F)) × Searcher
    semantic_side sr (err x, s) = with_store sr (err x, s)
    semantic_side sr (ok (floated, keyword_results), s) = fuse floated keyword_results sr (
        semantic_search fl w rs q.text q.project_id q.tags (map item_id floated)
          ((top_k + offset) * 2) (record sr.service { store = s }))

    unfoldable pub search_hybrid : ℕ → Searcher → Result (List (ScoredMemory F)) × Searcher
    search_hybrid pinned_limit sr =
        semantic_side sr
          (keyword_side e q top_k include_pinned offset pinned_limit sr.service.store)
