-- ===== src/UseCases/Search.antt =====
-- `execute` of use_cases/search_memory.py. A negative `pinned_limit` is 0.
use openchronicle_mcp.Base.{
  ℕ, Bool, not, ◌||◌, Option, none, some, List, String, str_eq, if◌then◌else◌, ℤ, to_nat,
}
use openchronicle_mcp.Domain.{Result, err, validation}
use openchronicle_mcp.Search.Ranked.{Engine, Query}
use openchronicle_mcp.Search.Scored.{ScoredMemory}
use openchronicle_mcp.Search.Keyword.{search_keyword}
use openchronicle_mcp.Service.Port.{World, Service}
use openchronicle_mcp.Service.Semantic.{Floats, Readings, search_semantic}
use openchronicle_mcp.Service.Hybrid.{Searcher, search_hybrid}

-- An embedding service that is configured, and what surrounds it.
pub record Embeddings (F : Type 0) : Type 0 where
  pub floats : Floats F
  pub order : List String → List String
  pub world : World
  pub readings : Readings

abbrev pub valid_mode : String → Bool
valid_mode mode = str_eq mode "hybrid" || str_eq mode "keyword" || str_eq mode "semantic"

module _ {F : Type 0} (e : Engine) (q : Query) (top_k : ℕ) (include_pinned : Bool) (offset : ℕ)
    (pinned_limit : ℤ) where
  abbrev on_keywords : Searcher → Result (List (ScoredMemory F)) × Searcher
  on_keywords sr =
      let (r, s) =
        search_keyword e q top_k include_pinned offset (to_nat pinned_limit) sr.service.store in
      (r, record sr { service = record sr.service { store = s } })

  abbrev with_service :
      Searcher
      → Result (List (ScoredMemory F)) × Service
      → Result (List (ScoredMemory F)) × Searcher
  with_service sr (r, sv) = (r, record sr { service = sv })

  abbrev pub by_meaning :
      Option (Embeddings F) → Searcher → Result (List (ScoredMemory F)) × Searcher
  by_meaning none sr = (err validation, sr)
  by_meaning (some c) sr = with_service sr (
      search_semantic c.floats c.world c.readings e q top_k include_pinned offset
        (to_nat pinned_limit) sr.service)

  abbrev pub by_both : Option (Embeddings F) → Searcher → Result (List (ScoredMemory F)) × Searcher
  by_both none sr = on_keywords sr
  by_both (some c) sr =
      search_hybrid c.floats c.order c.world c.readings e q top_k include_pinned offset
        (to_nat pinned_limit) sr

  unfoldable pub execute :
      Option (Embeddings F) → String → Searcher → Result (List (ScoredMemory F)) × Searcher
  execute embeddings mode sr =
      if not (valid_mode mode)
      then (err validation, sr)
      else if str_eq mode "semantic"
      then by_meaning embeddings sr
      else if str_eq mode "hybrid"
      then by_both embeddings sr
      else on_keywords sr
