-- ===== src/Search/Keyword.antt =====
-- The keyword path of core/application/use_cases/search_memory.py: the floated pins, then the
-- ranking, as one stream that `top_k` bounds and `offset` walks.
use openchronicle_mcp.Base.{
  ℕ, ◌+◌, ◌≡◌, refl, ap, sym, ◌∙◌, Bool, true, false, not, ◌||◌, length, ◌&&◌, inl, inr, Bool-cases,
  List, [], ◌++◌, map, String, arith, ltb, take, drop, filter, take-map, ◌==◌, if◌then◌else◌,
}
use mathlib.Core.Path.{fun_ext}
use openchronicle_mcp.Table.{IsUnique}
use openchronicle_mcp.Domain.{Result, MemoryItem, ok, err, operational}
use openchronicle_mcp.Store.Conn.{MemoryRow, Store, Action, memory_key, bind, pure, ◌>>=◌}
use openchronicle_mcp.Store.Memory.{row_to_memory_item}
use openchronicle_mcp.Search.Ranked.{
  Engine, Query, only, accepted, refused, ranked_search, search_memory, search_pinned,
  keep_unlisted, pin_mode, ranking,
}
use openchronicle_mcp.Search.Fetch.{ranked_items, search_memory-page}
use openchronicle_mcp.Search.Scored.{
  ScoredMemory, pinned_hit, keyword_hits, keyword_hits-take, page-append_take, take-append_take,
}

-- The float: the pins that match the query, up to the cap.
unfoldable pub floated_pins : Engine → Query → Bool → ℕ → Action (List MemoryItem)
floated_pins e q include_pinned pinned_limit =
    if include_pinned && ltb 0 pinned_limit then search_pinned e q pinned_limit else pure []

abbrev pub item_id : MemoryItem → String
item_id i = i.id

module _ {F : Type 0} where
  unfoldable pub search_keyword : Engine → Query → ℕ → Bool → ℕ → ℕ → Action (List (ScoredMemory F))
  search_keyword e q top_k include_pinned offset pinned_limit = do
    floated ← floated_pins e q include_pinned pinned_limit
    items ← search_memory e q (offset + top_k) include_pinned 0 (map item_id floated)
    pure (take top_k (drop offset (map pinned_hit floated ++ keyword_hits 1 items)))

bind_assoc :
    {A B C : Type 0} (r : Result A × Store) (f : A → Action B) (g : B → Action C)
    → bind (bind r f) g ≡ bind r (λ a s. bind (f a s) g)
bind_assoc (ok a, s) f g = refl
bind_assoc (err x, s) f g = refl

-- The float set as a list.
unfoldable pub float_set : Engine → Query → Bool → ℕ → List MemoryRow → List MemoryItem
float_set e q include_pinned pinned_limit rows =
    if include_pinned && ltb 0 pinned_limit
    then take pinned_limit (ranked_items e q only rows)
    else []

module _ (e : Engine) (q : Query) (include_pinned : Bool) (pinned_limit : ℕ) where
  -- No MATCH that FTS5 refuses is run: the query is accepted, or nothing is asked for.
  abbrev pub searchable : ℕ → Bool
  searchable fetch = accepted e q || (not (include_pinned && ltb 0 pinned_limit) && fetch == 0)

  pub floated_pins-float_set :
      (fetch : ℕ) (s : Store)
      → searchable fetch ≡ true
      → floated_pins e q include_pinned pinned_limit s
        ≡ (ok (float_set e q include_pinned pinned_limit s.memories), s)
  unfolding floated_pins float_set search_pinned ranked_search
  floated_pins-float_set fetch s h = elim (Bool-cases (include_pinned && ltb 0 pinned_limit)) [
    | inr off ↦ rw off refl
    | inl on ↦
        let some_pins : (pinned_limit == 0) ≡ false = ground arith in
        let good : refused e q pinned_limit ≡ false = ground (arith, h, on) in
        let rows = ranking e q only s.memories in
        rw on (
          rw some_pins (
            rw good (
              ap (λ xs. (ok xs, s))
                (ap (take pinned_limit) (take-map row_to_memory_item pinned_limit rows)
                  ∙ take-append_take pinned_limit pinned_limit [] (map row_to_memory_item rows)
                      (omega arith)))))
  ]

  pub floated_pins_refused :
      (s : Store)
      → accepted e q ≡ false
      → (include_pinned && ltb 0 pinned_limit) ≡ true
      → floated_pins e q include_pinned pinned_limit s ≡ (err operational, s)
  unfolding floated_pins search_pinned ranked_search
  floated_pins_refused s h on =
      let some_pins : (pinned_limit == 0) ≡ false = ground arith in
      let bad : refused e q pinned_limit ≡ true = ground arith in rw on (rw some_pins (rw bad refl))

  floated_pins-nil :
      (s : Store)
      → (include_pinned && ltb 0 pinned_limit) ≡ false
      → floated_pins e q include_pinned pinned_limit s ≡ (ok [], s)
  unfolding floated_pins
  floated_pins-nil s off = rw off refl

  float_set-nil :
      (rows : List MemoryRow)
      → (include_pinned && ltb 0 pinned_limit) ≡ false
      → float_set e q include_pinned pinned_limit rows ≡ []
  unfolding float_set
  float_set-nil rows off = rw off refl

  -- What follows the float.
  unfoldable pub unfloated : List MemoryRow → List MemoryItem
  unfloated rows =
      filter (keep_unlisted (map item_id (float_set e q include_pinned pinned_limit rows)))
        (ranked_items e q (pin_mode include_pinned) rows)

  -- The float and the first `fetch` rows that follow it, as one action.
  abbrev pub float_and_fetch : ℕ → Action (List MemoryItem × List MemoryItem)
  float_and_fetch fetch = floated_pins e q include_pinned pinned_limit >>= λ floated.
      search_memory e q fetch include_pinned 0 (map item_id floated) >>= λ items.
      pure (floated, items)

  fetch_not_refused :
      (fetch : ℕ) (rows : List MemoryRow)
      → searchable fetch ≡ true
      → refused e q
          (fetch + 0 + length (map item_id (float_set e q include_pinned pinned_limit rows)))
        ≡ false
  fetch_not_refused fetch rows h = elim (Bool-cases (accepted e q)) [
    | inl good ↦ ground (arith, good)
    | inr bad ↦
        let off : (include_pinned && ltb 0 pinned_limit) ≡ false = ground (arith, h, bad) in
        let nothing : fetch ≡ 0 = ground (arith, h, bad) in
        rw (float_set-nil rows off) (rw nothing (ground arith))
  ]

  pub float_and_fetch_lem :
      (fetch : ℕ) (s : Store)
      → IsUnique memory_key s.memories
      → float_and_fetch fetch s ≡ (
        if searchable fetch
            then ok (
              float_set e q include_pinned pinned_limit s.memories,
              take fetch (unfloated s.memories),
            )
            else err operational,
        s,
      )
  unfolding unfloated
  float_and_fetch_lem fetch s u = elim (Bool-cases (searchable fetch)) [
    | inl good ↦
        let floated = float_set e q include_pinned pinned_limit s.memories in
        rw (floated_pins-float_set fetch s good) (
          rw (search_memory-page e q fetch include_pinned 0 (map item_id floated) s u)
            (rw (fetch_not_refused fetch s.memories good) (rw good refl)))
    | inr bad ↦
        let unaccepted : accepted e q ≡ false = ground (arith, bad) in
        elim (Bool-cases (include_pinned && ltb 0 pinned_limit)) [
          | inl on ↦ rw (floated_pins_refused s unaccepted on) (rw bad refl)
          | inr off ↦
              let refuses : refused e q (fetch + 0 + 0) ≡ true =
                ground (arith, bad, off, unaccepted) in
              rw (floated_pins-nil s off) (
                rw (search_memory-page e q fetch include_pinned 0 [] s u)
                  (rw refuses (rw bad refl)))
        ]
  ]

module _ {F : Type 0} (e : Engine) (q : Query) (include_pinned : Bool) (pinned_limit : ℕ) where
  -- The whole answer, of which every call shows a page.
  unfoldable pub keyword_stream : List MemoryRow → List (ScoredMemory F)
  keyword_stream rows =
      map pinned_hit (float_set e q include_pinned pinned_limit rows)
      ++ keyword_hits 1 (unfloated e q include_pinned pinned_limit rows)

  abbrev shown_page : ℕ → ℕ → List MemoryItem × List MemoryItem → List (ScoredMemory F)
  shown_page top_k offset r = take top_k (drop offset (map pinned_hit r.0 ++ keyword_hits 1 r.1))

  search_keyword_fetched :
      (top_k offset : ℕ) (s : Store)
      → search_keyword e q top_k include_pinned offset pinned_limit s
        ≡ bind
            (float_and_fetch e q include_pinned pinned_limit (offset + top_k) s)
            (λ r. pure (shown_page top_k offset r))
  unfolding search_keyword
  search_keyword_fetched top_k offset s =
      let after : List MemoryItem × List MemoryItem → Action (List (ScoredMemory F)) =
        λ r. pure (shown_page top_k offset r) in
      let fetch : List MemoryItem → Action (List MemoryItem) =
        λ floated. search_memory e q (offset + top_k) include_pinned 0 (map item_id floated) in
      let pair : List MemoryItem → Action (List MemoryItem × List MemoryItem) =
        λ floated. fetch floated >>= λ items. pure (floated, items) in
      sym (
        bind_assoc (floated_pins e q include_pinned pinned_limit s) pair after
        ∙ ap (bind (floated_pins e q include_pinned pinned_limit s)) (
            fun_ext λ floated.
              fun_ext λ s'. bind_assoc (fetch floated s') (λ items. pure (floated, items)) after))

  -- Where memory ids are unique, a keyword search changes nothing and returns the page of `top_k` hits
  -- at `offset` of one list that depends on neither: the floated pins, then every other row of the
  -- ranking, ranked from 1. If it runs a MATCH that FTS5 refuses, it raises OperationalError instead.
  pub search_keyword-page :
      (top_k offset : ℕ) (s : Store)
      → IsUnique memory_key s.memories
      → search_keyword e q top_k include_pinned offset pinned_limit s ≡ (
        if searchable e q include_pinned pinned_limit (offset + top_k)
            then ok (take top_k (drop offset (keyword_stream s.memories)))
            else err operational,
        s,
      )
  unfolding keyword_stream
  search_keyword-page top_k offset s u =
      let floated = float_set e q include_pinned pinned_limit s.memories in
      let rest = unfloated e q include_pinned pinned_limit s.memories in
      search_keyword_fetched top_k offset s
      ∙ ap (λ r. bind r (λ p. pure (shown_page top_k offset p)))
          (float_and_fetch_lem e q include_pinned pinned_limit (offset + top_k) s u)
      ∙ elim (Bool-cases (searchable e q include_pinned pinned_limit (offset + top_k))) [
        | inr bad ↦ rw bad refl
        | inl good ↦ rw good (
            ap (λ xs. (ok xs, s))
              (ap (λ ys. take top_k (drop offset (map pinned_hit floated ++ ys)))
                  (keyword_hits-take (offset + top_k) 1 rest)
                ∙ page-append_take offset top_k (map pinned_hit floated) (keyword_hits 1 rest)))
      ]

  pub search_keyword_answered :
      (top_k offset : ℕ) (s : Store)
      → IsUnique memory_key s.memories
      → searchable e q include_pinned pinned_limit (offset + top_k) ≡ true
      → search_keyword e q top_k include_pinned offset pinned_limit s
        ≡ (ok (take top_k (drop offset (keyword_stream s.memories))), s)
  search_keyword_answered top_k offset s u h = search_keyword-page top_k offset s u ∙ rw h refl

  pub search_keyword_refused :
      (top_k offset : ℕ) (s : Store)
      → IsUnique memory_key s.memories
      → searchable e q include_pinned pinned_limit (offset + top_k) ≡ false
      → search_keyword {F = F} e q top_k include_pinned offset pinned_limit s ≡ (err operational, s)
  search_keyword_refused top_k offset s u h = search_keyword-page top_k offset s u ∙ rw h refl
