-- ===== src/Search/Ranked.antt =====
-- The ranked search of SqliteStore, on FTS5 or on the fallback scorer.
use openchronicle_mcp.Base.{
  ℕ, ◌+◌, Bool, true, false, not, ◌&&◌, ◌||◌, Option, none, some, List, [], ◌∷◌, map, String, ltb,
  ◌==◌, str_lt, if◌then◌else◌, length, filter, sort_by, take, drop, codes, contains, is_some,
}
use openchronicle_mcp.Domain.{ok, err, operational, MemoryItem}
use openchronicle_mcp.Store.Conn.{MemoryRow, Action, gets, pure, ◌>>=◌}
use openchronicle_mcp.Store.Projects.{in_project}
use openchronicle_mcp.Store.Memory.{row_to_memory_item, carries_all, newer}
use openchronicle_mcp.Search.Words.{
  Unicode, split, occurs_in, join, normalize_tokens, tag_match_count, keyword_match_count,
  fts5_escape,
}

-- SQLite's FTS5 over the rows of the memory table: whether MATCH accepts an escaped query or raises
-- OperationalError, as it does where U+0000 cuts a quoted word short; which rows an accepted query
-- matches; and the bm25 rank of a row among all rows, by a number of the same order.
pub record Fts5 : Type 0 where
  pub accepts : List ℕ → Bool
  pub matches : List ℕ → MemoryRow → Bool
  pub rank : List MemoryRow → List ℕ → MemoryRow → ℕ

pub record Engine : Type 0 where
  pub fts5_active : Bool
  pub fts5 : Fts5
  pub unicode : Unicode

-- `_PinnedMode`: "exclude", "include" and "only".
pub data PinnedMode : Type 0 where
  exclude include only : PinnedMode

abbrev pub is_global : MemoryRow → Bool
is_global r = not (is_some r.project_id)

-- `_pinned_clauses`, as one predicate.
abbrev pub pinned_clauses : PinnedMode → Option String → MemoryRow → Bool
pinned_clauses exclude none r = not r.pinned
pinned_clauses exclude (some p) r = not r.pinned && in_project p r
pinned_clauses only none r = r.pinned
pinned_clauses only (some p) r = r.pinned && (in_project p r || is_global r)
pinned_clauses include none r = true
pinned_clauses include (some p) r = in_project p r || (r.pinned && is_global r)

-- The arguments that every search shares.
pub record Query : Type 0 where
  pub text : String
  pub project_id : Option String
  pub tags : List String
  pub phrase : Bool

abbrev pub search_where : Query → PinnedMode → MemoryRow → Bool
search_where q mode r = pinned_clauses mode q.project_id r && carries_all q.tags r

-- ORDER BY fts.rank, m.created_at DESC, m.id ASC.
abbrev pub fts5_before : (MemoryRow → ℕ) → MemoryRow → MemoryRow → Bool
fts5_before rank a b =
    ltb (rank a) (rank b)
    || (rank a == rank b
        && (ltb b.created_at a.created_at || (a.created_at == b.created_at && str_lt a.id b.id)))

abbrev pub nothing_to_match : List ℕ → Bool
nothing_to_match [] = true
nothing_to_match (c ∷ cs) = false

-- The query reaches MATCH only if something is left of it, and only on the FTS5 path.
abbrev pub accepted : Engine → Query → Bool
accepted e q =
    let escaped = fts5_escape (codes q.text) q.phrase in
    not e.fts5_active || nothing_to_match escaped || e.fts5.accepts escaped

-- SQLite evaluates no MATCH under a LIMIT of 0.
abbrev pub refused : Engine → Query → ℕ → Bool
refused e q limit = not (accepted e q) && not (limit == 0)

-- The FTS5 ranking before its LIMIT, of a query that MATCH accepts.
unfoldable pub fts5_ranking : Fts5 → Query → PinnedMode → List MemoryRow → List MemoryRow
fts5_ranking f q mode rows =
    let escaped = fts5_escape (codes q.text) q.phrase in
    if nothing_to_match escaped
    then []
    else sort_by (fts5_before (f.rank rows escaped))
        (filter (λ r. f.matches escaped r && search_where q mode r) rows)

-- _MEMORY_SEARCH_LIMIT.
abbrev pub memory_search_limit : ℕ
memory_search_limit = 200

-- `items.sort(key=_score, reverse=True)`.
abbrev pub score_before : (MemoryRow → ℕ) → (MemoryRow → ℕ) → MemoryRow → MemoryRow → Bool
score_before tag_count keyword_count a b =
    ltb (tag_count b) (tag_count a)
    || (tag_count a == tag_count b
        && (ltb (keyword_count b) (keyword_count a)
            || (keyword_count a == keyword_count b && newer a b)))

abbrev squeeze : List ℕ → List ℕ
squeeze t = join (b' ' ∷ []) (split t)

-- The fallback's ranking before its `[:limit]`: of the newest 200 rows in scope, those that hold
-- the phrase, or all of them by score.
unfoldable pub fallback_ranking : Unicode → Query → PinnedMode → List MemoryRow → List MemoryRow
fallback_ranking u q mode rows =
    let window = take memory_search_limit (sort_by newer (filter (search_where q mode) rows)) in
    let tokens = normalize_tokens u (codes q.text) in
    let needle = u.casefold (squeeze (codes q.text)) in
    if q.phrase
    then (if nothing_to_match needle
        then []
        else filter (λ r. occurs_in needle (u.casefold (squeeze (codes r.content)))) window)
    else sort_by
        (score_before (λ r. tag_match_count u r.tags tokens)
          (λ r. keyword_match_count u r.content tokens))
        window

unfoldable pub ranking : Engine → Query → PinnedMode → List MemoryRow → List MemoryRow
ranking e q mode rows =
    if e.fts5_active
    then fts5_ranking e.fts5 q mode rows
    else fallback_ranking e.unicode q mode rows

-- `_ranked_search`: both paths cut the ranking at `limit`, and nothing catches what MATCH raises.
unfoldable pub ranked_search : Engine → Query → ℕ → PinnedMode → Action (List MemoryRow)
ranked_search e q limit mode s = (
  if refused e q limit then err operational else ok (take limit (ranking e q mode s.memories)),
  s,
)

unfoldable pub search_pinned : Engine → Query → ℕ → Action (List MemoryItem)
search_pinned e q limit =
    if limit == 0
    then pure []
    else ranked_search e q limit only >>= λ rows. pure (take limit (map row_to_memory_item rows))

abbrev pub keep_unlisted : List String → MemoryItem → Bool
keep_unlisted ids i = not (contains ids i.id)

abbrev pub pin_mode : Bool → PinnedMode
pin_mode include_pinned = if include_pinned then include else exclude

-- `exclude_ids` is a set: a list that holds an id once.
unfoldable pub search_memory :
    Engine → Query → ℕ → Bool → ℕ → List String → Action (List MemoryItem)
search_memory e q top_k include_pinned offset exclude_ids =
    ranked_search e q (top_k + offset + length exclude_ids) (pin_mode include_pinned) >>= λ rows.
    pure
      (take top_k (drop offset (filter (keep_unlisted exclude_ids) (map row_to_memory_item rows))))

-- The scope and tag rules of the ranked search, with no query.
unfoldable pub eligible_memory_ids : Option String → List String → Action (List String)
eligible_memory_ids project_id tags = gets (λ s.
    map (λ r. r.id)
      (filter (λ r. pinned_clauses include project_id r && carries_all tags r) s.memories))

unfoldable pub pinned_items : Option String → Action (List MemoryItem)
pinned_items project_id = gets (λ s.
    map row_to_memory_item (sort_by newer (filter (pinned_clauses only project_id) s.memories)))
