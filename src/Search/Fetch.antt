-- ===== src/Search/Fetch.antt =====
-- The fetch of `search_memory`, which asks for as many rows more as it may drop, and its page.
use openchronicle_mcp.Base.{
  ℕ, ◌+◌, ◌≤◌, ◌≡◌, refl, ap, sym, ◌∙◌, Bool, true, false, not, List, [], map, String, arith,
  length, take, drop, filter, sort_by, contains, count, count-map, count-filter_le, count-take_le,
  count-sort_by, count-contains, count-ext, take-filter-take, take-drop, take-map, str_eq,
  if◌then◌else◌, Bool-cases, inl, inr,
}
use mathlib.Core.Bool.{not-not}
use native.Mathlib.Nat.{le_trans}
use openchronicle_mcp.Table.{IsUnique, IsUnique-count}
use openchronicle_mcp.Domain.{MemoryItem, ok, err, operational}
use openchronicle_mcp.Store.Conn.{MemoryRow, Store, memory_key}
use openchronicle_mcp.Store.Memory.{row_to_memory_item, newer}
use openchronicle_mcp.Search.Words.{Unicode}
use openchronicle_mcp.Search.Ranked.{
  Fts5, Engine, Query, PinnedMode, search_where, fts5_ranking, fallback_ranking, ranking,
  ranked_search, refused, search_memory, keep_unlisted, pin_mode, memory_search_limit,
}

module _ {A : Type 0} (p : A → Bool) (n : ℕ) where
  count-if :
      (b : Bool) (xs ys : List A)
      → count p xs ≤ n
      → count p ys ≤ n
      → count p (if b then xs else ys) ≤ n
  count-if true xs ys hx hy = hx
  count-if false xs ys hx hy = hy

  count-sort_by_le :
      (before : A → A → Bool) (xs : List A) → count p xs ≤ n → count p (sort_by before xs) ≤ n
  count-sort_by_le before xs h = omega (arith, count-sort_by before p xs)

module _ (q : Query) (mode : PinnedMode) (rows : List MemoryRow) (p : MemoryRow → Bool) where
  count-fts5_ranking : (f : Fts5) → count p (fts5_ranking f q mode rows) ≤ count p rows
  unfolding fts5_ranking
  count-fts5_ranking f =
      count-if p (count p rows) _ [] _ (omega arith)
        (count-sort_by_le p (count p rows) _ _ (count-filter_le p _ rows))

  window_le :
      count p (take memory_search_limit (sort_by newer (filter (search_where q mode) rows)))
      ≤ count p rows
  window_le = omega (
    arith,
    count-take_le p memory_search_limit (sort_by newer (filter (search_where q mode) rows)),
    count-sort_by newer p (filter (search_where q mode) rows),
    count-filter_le p (search_where q mode) rows,
  )

  count-fallback_ranking : (u : Unicode) → count p (fallback_ranking u q mode rows) ≤ count p rows
  unfolding fallback_ranking
  count-fallback_ranking u =
      count-if p (count p rows) q.phrase _ _
        (count-if p (count p rows) _ [] _ (omega arith)
          (le_trans (count-filter_le p _ _) window_le))
        (count-sort_by_le p (count p rows) _ _ window_le)

  -- A ranking holds no row more often than the table does.
  pub count-ranking : (e : Engine) → count p (ranking e q mode rows) ≤ count p rows
  unfolding ranking
  count-ranking e =
      count-if p (count p rows) e.fts5_active _ _ (count-fts5_ranking e.fts5)
        (count-fallback_ranking e.unicode)

abbrev pub ranked_items : Engine → Query → PinnedMode → List MemoryRow → List MemoryItem
ranked_items e q mode rows = map row_to_memory_item (ranking e q mode rows)

abbrev pub item_has : String → MemoryItem → Bool
item_has k i = str_eq i.id k

module _ (e : Engine) (q : Query) (mode : PinnedMode) (rows : List MemoryRow) where
  pub ranked_once :
      IsUnique memory_key rows → (k : String) → count (item_has k) (ranked_items e q mode rows) ≤ 1
  ranked_once u k = omega (
    arith,
    count-map row_to_memory_item (item_has k) (ranking e q mode rows),
    count-ranking q mode rows (λ r. str_eq r.id k) e,
    IsUnique-count memory_key k rows u,
  )

  dropped_le :
      (ids : List String)
      → IsUnique memory_key rows
      → count (λ i. not (keep_unlisted ids i)) (ranked_items e q mode rows) ≤ length ids
  dropped_le ids u = omega (
    arith,
    count-ext (λ i. not (keep_unlisted ids i)) (λ i. contains ids i.id) (ranked_items e q mode rows)
        (λ i. not-not (contains ids i.id)),
    count-contains (λ (i : MemoryItem). i.id) (ranked_items e q mode rows) (ranked_once u) ids,
  )

  -- The bounded fetch gives the page of the unbounded ranking.
  fetched :
      (top_k offset : ℕ) (ids : List String)
      → IsUnique memory_key rows
      → take top_k (
          drop offset (
            filter (keep_unlisted ids) (
              map row_to_memory_item (take (top_k + offset + length ids) (ranking e q mode rows)))))
        ≡ take top_k (drop offset (filter (keep_unlisted ids) (ranked_items e q mode rows)))
  fetched top_k offset ids u =
      let all_ranked = ranked_items e q mode rows in
      let fetch = top_k + offset + length ids in
      ap (λ xs. take top_k (drop offset (filter (keep_unlisted ids) xs)))
        (take-map row_to_memory_item fetch (ranking e q mode rows))
      ∙ sym (take-drop offset top_k (filter (keep_unlisted ids) (take fetch all_ranked)))
      ∙ ap (drop offset) (
          take-filter-take (keep_unlisted ids) (offset + top_k) fetch all_ranked
            (omega (arith, dropped_le ids u)))
      ∙ take-drop offset top_k (filter (keep_unlisted ids) all_ranked)

-- Where memory ids are unique, `search_memory`, which fetches a bounded part of the ranking, returns
-- the page of the whole ranking with the excluded ids left out, or raises OperationalError if it runs
-- a MATCH that FTS5 refuses; it changes nothing.
pub search_memory-page :
    (e : Engine) (q : Query) (top_k : ℕ) (include_pinned : Bool) (offset : ℕ) (ids : List String)
    (s : Store)
    → IsUnique memory_key s.memories
    → search_memory e q top_k include_pinned offset ids s ≡ (
      if refused e q (top_k + offset + length ids)
          then err operational
          else ok (
              take top_k (
                drop offset (
                  filter
                    (keep_unlisted ids)
                    (ranked_items e q (pin_mode include_pinned) s.memories)))),
      s,
    )
unfolding search_memory ranked_search
search_memory-page e q top_k include_pinned offset ids s u =
    elim (Bool-cases (refused e q (top_k + offset + length ids))) [
      | inl bad ↦ rw bad refl
      | inr good ↦ rw good (
          ap (λ xs. (ok xs, s))
            (fetched e q (pin_mode include_pinned) s.memories top_k offset ids u))
    ]
