-- ===== src/Tests/Modes.antt =====
-- Uses of the theorems on searches with vectors: scores are natural numbers, and the provider is down.
use openchronicle_mcp.Base.{
  List, ℕ, ◌+◌, ◌≡◌, refl, false, true, none, some, take, ltb, negsuc, ◌⊎◌,
}
use openchronicle_mcp.Domain.{Error, Result, err, operational}
use openchronicle_mcp.Search.Scored.{ScoredMemory}
use openchronicle_mcp.Search.Keyword.{search_keyword}
use openchronicle_mcp.Service.Port.{Port, World, Service, Snapshot, embed_single}
use openchronicle_mcp.Service.Semantic.{Floats, Readings, semantic_search, embed_stable}
use openchronicle_mcp.Service.Hybrid.{Searcher, search_hybrid}
use openchronicle_mcp.Service.Fallback.{Degraded, Answers, search_hybrid-search_keyword}
use openchronicle_mcp.UseCases.Search.{Embeddings, execute}
use openchronicle_mcp.UseCases.Answers.{Raises, execute-Searched}
use openchronicle_mcp.Tests.Data.{hash, store}
use openchronicle_mcp.Tests.Searches.{engine, query, ids-IsUnique}

abbrev floats : Floats ℕ
floats = record {
  zero = 0;
  add = λ a b. a + b;
  reciprocal = λ n. n;
  less = ltb;
  dot = λ u v. 1;
  best = λ k cs. take k cs;
}

abbrev down : Port
down = record {
  provider_name = "p";
  model_name = "m";
  settings_fingerprint = "f";
  embed = λ n content. err operational;
  embed_batch = λ n contents. err operational;
}

abbrev world : World
world = record { port = down; hash_content = hash; clock = λ n. n; meanwhile = λ n s. s }

abbrev unknown : Snapshot
unknown = record { known = false; value = none }

abbrev readings : Readings
readings = record { opening = unknown; first = unknown; second = unknown }

abbrev service : Service
service = record {
  store = store;
  calls = 0;
  failure_count = 0;
  last_failure_op = none;
  reconciled_revision = none;
}

abbrev searcher : Searcher
searcher = record { service = service; search_failure_count = 0 }

abbrev asked : Result (List (ScoredMemory ℕ)) × Searcher
asked = search_hybrid floats (λ ids. ids) world readings engine query 2 true 1 5 searcher

search_hybrid-search_keyword_example :
    (asked.0 ≡ (search_keyword {F = ℕ} engine query 2 true 1 5 store).0)
    × Degraded floats
        (λ ids. ids)
        world
        readings
        engine
        query
        2
        true
        1
        5
        searcher
        operational
        (record service { calls = 1 })
        asked.1
unfolding semantic_search embed_stable embed_single
search_hybrid-search_keyword_example =
    search_hybrid-search_keyword floats (λ ids. ids) world readings engine query 2 true 1 5 searcher
      operational (record service { calls = 1 }) ids-IsUnique refl

abbrev embeddings : Embeddings ℕ
embeddings = record { floats = floats; order = λ ids. ids; world = world; readings = readings }

execute-Searched_example :
    Answers query true 2
      (execute engine query 2 true 0 (negsuc 0) (some embeddings) "hybrid" searcher).0
    ⊎ ((x : Error) × ((execute engine query 2 true 0
            (negsuc 0)
            (some embeddings)
            "hybrid"
            searcher).0
          ≡ err x)
        × Raises engine query 2 true 0 (negsuc 0) (some embeddings) "hybrid" searcher x)
execute-Searched_example =
    execute-Searched engine query 2 true 0 (negsuc 0) (some embeddings) "hybrid" searcher
      ids-IsUnique
