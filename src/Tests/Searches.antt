-- ===== src/Tests/Searches.antt =====
-- Uses of the search theorems, with a small full-text engine: the rows up to an instant match, the
-- oldest first.
use openchronicle_mcp.Base.{
  ℕ, ◌+◌, ◌≡◌, refl, true, false, none, List, [], ◌∷◌, map, filter, take, drop, leb, all, ◌&&◌,
  if◌then◌else◌,
}
use openchronicle_mcp.Domain.{ok, err, operational}
use openchronicle_mcp.Store.Conn.{memory_key}
use openchronicle_mcp.Table.{IsUnique}
use openchronicle_mcp.Search.Words.{fts5_escape}
use openchronicle_mcp.Search.Ranked.{
  Fts5, Engine, Query, search_memory, search_pinned, ranked_search, keep_unlisted, include,
}
use openchronicle_mcp.Search.Fetch.{ranked_items, search_memory-page}
use openchronicle_mcp.Search.Keyword.{
  floated_pins, search_keyword, keyword_stream, search_keyword-page,
}
use openchronicle_mcp.Tests.Data.{tables, store}

abbrev fts5 : Fts5
fts5 = record {
  accepts = λ escaped. all (λ c. leb 1 c) escaped;
  matches = λ escaped r. leb r.created_at 200;
  rank = λ rows escaped r. r.created_at;
}

-- ASCII letters in lower case.
abbrev lower : List ℕ → List ℕ
lower cs = map (λ c. if leb 65 c && leb c 90 then c + 32 else c) cs

abbrev pub engine : Engine
engine = record {
  fts5_active = true;
  fts5 = fts5;
  unicode = record { lower = lower; casefold = lower };
}

abbrev pub query : Query
query = record { text = "tabs"; project_id = none; tags = []; phrase = false }

pub ids-IsUnique : IsUnique memory_key tables.memories
ids-IsUnique = (refl, (refl, (refl, tt)))

search_memory-page_example : search_memory engine query 1 true 1 ("m1" ∷ []) store ≡ (
  ok (
      take 1 (
        drop 1 (
          filter (keep_unlisted ("m1" ∷ [])) (ranked_items engine query include tables.memories)))),
  store,
)
unfolding fts5_escape
search_memory-page_example = search_memory-page engine query 1 true 1 ("m1" ∷ []) store ids-IsUnique

search_keyword-page_example :
    search_keyword {F = ℕ} engine query 2 true 1 5 store
    ≡ (ok (take 2 (drop 1 (keyword_stream engine query true 5 tables.memories))), store)
unfolding fts5_escape
search_keyword-page_example = search_keyword-page engine query true 5 2 1 store ids-IsUnique

-- U+0000 in a word leaves its quotation open.
abbrev cut_short : Query
cut_short = record query { text = "a\0b" }

raises : (search_keyword {F = ℕ} engine cut_short 2 true 1 5 store).0 ≡ err operational
unfolding search_keyword floated_pins search_pinned ranked_search fts5_escape
raises = refl
