-- ===== src/Service/Shown.antt =====
-- Searches show only what their filters let through.
use openchronicle_mcp.Base.{
  All-if, ℕ, ◌+◌, ◌≡◌, refl, Bool, true, false, not, ◌&&◌, Option, none, some, List, [], ◌∷◌, map,
  String, arith, All, All-imp, All-append, All-take, All-drop, All-filter, All-sort_by, filter-All,
  filter, ltb,
}
use openchronicle_mcp.Domain.{MemoryItem}
use openchronicle_mcp.Store.Conn.{MemoryRow}
use openchronicle_mcp.Store.Memory.{row_to_memory_item, newer}
use openchronicle_mcp.Search.Words.{Unicode}
use openchronicle_mcp.Search.Ranked.{
  Fts5, Engine, Query, PinnedMode, include, only, search_where, fts5_ranking, fallback_ranking,
  ranking, pin_mode, pinned_clauses, memory_search_limit,
}
use openchronicle_mcp.Search.Fetch.{ranked_items}
use openchronicle_mcp.Search.Scored.{ScoredMemory, pinned_hit, keyword_hits}
use openchronicle_mcp.Search.Keyword.{float_set}
use openchronicle_mcp.Service.Semantic.{shown, in_reach, page_of}

pub All-map :
    {A B : Type 0} (P : B → Type 0) (f : A → B) (xs : List A)
    → All (λ x. P (f x)) xs
    → All P (map f xs)
All-map P f [] h = tt
All-map P f (x ∷ xs) h = (h.0, All-map P f xs h.1)

module _ (q : Query) (mode : PinnedMode) (rows : List MemoryRow) where
  abbrev Matching : MemoryRow → Type 0
  Matching r = search_where q mode r ≡ true

  filtered-Matching :
      (p : MemoryRow → Bool) → All Matching (filter (λ r. p r && search_where q mode r) rows)
  filtered-Matching p =
      All-imp _ _ (λ r h. ground arith) _ (filter-All (λ r. p r && search_where q mode r) rows)

  fts5-Matching : (f : Fts5) → All Matching (fts5_ranking f q mode rows)
  unfolding fts5_ranking
  fts5-Matching f = All-if Matching _ [] _ tt (All-sort_by _ Matching _ (filtered-Matching _))

  fallback-Matching : (u : Unicode) → All Matching (fallback_ranking u q mode rows)
  unfolding fallback_ranking
  fallback-Matching u =
      let window =
        All-take Matching memory_search_limit _
          (All-sort_by newer Matching _ (filter-All (search_where q mode) rows)) in
      All-if Matching q.phrase _ _ (All-if Matching _ [] _ tt (All-filter Matching _ _ window))
        (All-sort_by _ Matching _ window)

  ranking-Matching : (e : Engine) → All Matching (ranking e q mode rows)
  unfolding ranking
  ranking-Matching e =
      All-if Matching e.fts5_active _ _ (fts5-Matching e.fts5) (fallback-Matching e.unicode)

abbrev pub IsShown : Query → Bool → MemoryItem → Type 0
IsShown q include_pinned i = shown q include_pinned i ≡ true

clauses-reach :
    (include_pinned : Bool) (o : Option String) (r : MemoryRow)
    → pinned_clauses (pin_mode include_pinned) o r ≡ true
    → (not (r.pinned && not include_pinned) && in_reach o (row_to_memory_item r)) ≡ true
clauses-reach true none r h = ground arith
clauses-reach true (some p) r h = ground arith
clauses-reach false none r h = ground arith
clauses-reach false (some p) r h = ground arith

only-include :
    (o : Option String) (r : MemoryRow)
    → pinned_clauses only o r ≡ true
    → pinned_clauses include o r ≡ true
only-include none r h = refl
only-include (some p) r h = ground arith

Matching-IsShown :
    (q : Query) (include_pinned : Bool) (r : MemoryRow)
    → search_where q (pin_mode include_pinned) r ≡ true
    → IsShown q include_pinned (row_to_memory_item r)
Matching-IsShown q include_pinned r h = ground (arith, clauses-reach include_pinned q.project_id r)

only-IsShown :
    (q : Query) (r : MemoryRow)
    → search_where q only r ≡ true
    → IsShown q true (row_to_memory_item r)
only-IsShown q r h = Matching-IsShown q true r (ground (arith, only-include q.project_id r))

pub float_set-IsShown :
    (e : Engine) (q : Query) (include_pinned : Bool) (rows : List MemoryRow) (pinned_limit : ℕ)
    → All (IsShown q include_pinned) (float_set e q include_pinned pinned_limit rows)
unfolding float_set
float_set-IsShown e q false rows pinned_limit = tt
float_set-IsShown e q true rows pinned_limit =
    All-if (IsShown q true) (ltb 0 pinned_limit) _ []
      (All-take (IsShown q true) pinned_limit _ (
        All-map (IsShown q true) row_to_memory_item _
          (All-imp _ _ (only-IsShown q) _ (ranking-Matching q only rows e))))
      tt

module _ (e : Engine) (q : Query) (include_pinned : Bool) (rows : List MemoryRow) where
  pub ranked_items-IsShown :
      All (IsShown q include_pinned) (ranked_items e q (pin_mode include_pinned) rows)
  ranked_items-IsShown = All-map (IsShown q include_pinned) row_to_memory_item _ (
      All-imp _ _ (Matching-IsShown q include_pinned) _
        (ranking-Matching q (pin_mode include_pinned) rows e))

-- Hits of shown memories.
abbrev pub HitShown : {F : Type 0} → Query → Bool → ScoredMemory F → Type 0
HitShown q include_pinned h = IsShown q include_pinned h.item

module _ (F : Type 0) (q : Query) (include_pinned : Bool) where
  pub keyword_hits-shown :
      (rank : ℕ) (items : List MemoryItem)
      → All (IsShown q include_pinned) items
      → All (HitShown {F = F} q include_pinned) (keyword_hits rank items)
  keyword_hits-shown rank [] a = tt
  keyword_hits-shown rank (i ∷ items) a = (a.0, keyword_hits-shown (rank + 1) items a.1)

  pub page-shown :
      (top_k offset : ℕ) (floated : List MemoryItem) (ranked : List (ScoredMemory F))
      → All (IsShown q include_pinned) floated
      → All (HitShown q include_pinned) ranked
      → All (HitShown q include_pinned) (page_of top_k offset floated ranked)
  page-shown top_k offset floated ranked a b = All-take _ top_k _ (
      All-drop _ offset _
        (All-append _ (map pinned_hit floated) ranked (All-map _ pinned_hit floated a) b))
