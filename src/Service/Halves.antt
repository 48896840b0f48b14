-- ===== src/Service/Halves.antt =====
-- The two halves of `search_hybrid`: the keyword side and the fusion.
use openchronicle_mcp.Base.{
  ℕ, ◌+◌, ◌*◌, ◌≡◌, refl, ◌∙◌, Bool, true, false, Option, none, some, List, [], ◌∷◌, map, String,
  arith, All, All-take, All-filter, All-sort_by, sort_by, take,
}
use openchronicle_mcp.Table.{IsUnique, find}
use openchronicle_mcp.Domain.{Result, ok, err, operational, MemoryItem}
use openchronicle_mcp.Store.Conn.{MemoryRow, Store, memory_key}
use openchronicle_mcp.Store.Memory.{get_memory, found_item}
use openchronicle_mcp.Search.Ranked.{Engine, Query, keep_unlisted}
use openchronicle_mcp.Search.Scored.{ScoredMemory}
use openchronicle_mcp.Search.Keyword.{
  searchable, float_and_fetch_lem, float_set, unfloated, item_id,
}
use openchronicle_mcp.Service.Semantic.{Floats}
use openchronicle_mcp.Service.Hybrid.{
  union, ranked_id, merge, fusable_items, look_up, add_fusable, fused_hit, hit_of, keyword_side,
}
use openchronicle_mcp.Service.Shown.{IsShown, HitShown, All-map, ranked_items-IsShown}

module _ (e : Engine) (q : Query) (top_k : ℕ) (include_pinned : Bool) (offset : ℕ)
    (pinned_limit : ℕ) where
  abbrev pub window : ℕ
  window = (top_k + offset) * 2

  -- The keyword ranking that is fetched: the first `window` of what follows the float.
  abbrev pub fetched : List MemoryRow → List MemoryItem
  fetched rows = take window (unfloated e q include_pinned pinned_limit rows)

  pub fetched-IsShown : (rows : List MemoryRow) → All (IsShown q include_pinned) (fetched rows)
  unfolding unfloated
  fetched-IsShown rows = All-take _ window _ (
      All-filter _ (keep_unlisted (map item_id (float_set e q include_pinned pinned_limit rows))) _
        (ranked_items-IsShown e q include_pinned rows))

  -- The keyword side runs no MATCH that FTS5 refuses.
  abbrev pub readable : Bool
  readable = searchable e q include_pinned pinned_limit window

  pub keyword_side_lem :
      (s : Store)
      → IsUnique memory_key s.memories
      → readable ≡ true
      → keyword_side e q top_k include_pinned offset pinned_limit s
        ≡ (ok (float_set e q include_pinned pinned_limit s.memories, fetched s.memories), s)
  keyword_side_lem s u h =
      float_and_fetch_lem e q include_pinned pinned_limit window s u ∙ rw h refl

  pub keyword_side_refused :
      (s : Store)
      → IsUnique memory_key s.memories
      → readable ≡ false
      → keyword_side e q top_k include_pinned offset pinned_limit s ≡ (err operational, s)
  keyword_side_refused s u h =
      float_and_fetch_lem e q include_pinned pinned_limit window s u ∙ rw h refl

  pub readable_page :
      readable ≡ true → searchable e q include_pinned pinned_limit (offset + top_k) ≡ true
  readable_page h = ground (arith, h)

  pub unreadable_page :
      readable ≡ false → searchable e q include_pinned pinned_limit (offset + top_k) ≡ false
  unreadable_page h = ground (arith, h)

-- The loop that collects what may be fused reads the store and raises nothing.
pub record Collected (q : Query) (include_pinned : Bool) (s : Store)
    (r : Result (List MemoryItem) × Store) : Type 0 where
  pub items : List MemoryItem
  pub returned : r ≡ (ok items, s)
  pub visible : All (IsShown q include_pinned) items

module _ {F : Type 0} (fl : Floats F) (order : List String → List String) (q : Query)
    (include_pinned : Bool) (pinned_ids : List String) where
  abbrev collect : List MemoryItem → List String → Store → Result (List MemoryItem) × Store
  collect = fusable_items fl order q include_pinned pinned_ids

  add_visible :
      (o : Option MemoryItem) (items : List MemoryItem)
      → All (IsShown q include_pinned) items
      → All (IsShown q include_pinned) (add_fusable fl order q include_pinned pinned_ids o items)
  add_visible none items a = a
  add_visible (some i) items a = ground arith

  look_up-reads :
      (keyword_results : List MemoryItem) (id : String) (s : Store)
      → (o : Option MemoryItem) × (look_up keyword_results id s ≡ (ok o, s))
  unfolding get_memory
  look_up-reads keyword_results id s = go (find item_id id keyword_results) refl
    where
      go :
          (held : Option MemoryItem)
          → find item_id id keyword_results ≡ held
          → (o : Option MemoryItem) × (look_up keyword_results id s ≡ (ok o, s))
      go none e = (found_item (find memory_key id s.memories), rw e refl)
      go (some i) e = (some i, rw e refl)

  fusable_items-Collected :
      (keyword_results : List MemoryItem) (ids : List String) (s : Store)
      → Collected q include_pinned s (collect keyword_results ids s)
  unfolding fusable_items
  fusable_items-Collected keyword_results [] s = record {
    items = [];
    returned = refl;
    visible = tt;
  }
  fusable_items-Collected keyword_results (id ∷ ids) s =
      let later = fusable_items-Collected keyword_results ids s in
      let (o, e) = look_up-reads keyword_results id s in
      record {
        items = add_fusable fl order q include_pinned pinned_ids o later.items;
        returned = rw e (rw (later.returned) refl);
        visible = add_visible o later.items later.visible;
      }

  -- The fusion.
  pub record Merged (s : Store) (r : Result (List (ScoredMemory F)) × Store) : Type 0 where
    pub hits : List (ScoredMemory F)
    pub returned : r ≡ (ok hits, s)
    pub visible : All (HitShown q include_pinned) hits

  abbrev ScoredShown : ScoredMemory F × F → Type 0
  ScoredShown h = HitShown q include_pinned (hit_of h)

  pub merge-Merged :
      (limit : ℕ) (keyword_results : List MemoryItem) (semantic_ranked : List (String × F))
      (s : Store)
      → Merged s
          (merge fl order q include_pinned pinned_ids limit keyword_results semantic_ranked s)
  unfolding merge fused_hit
  merge-Merged limit keyword_results semantic_ranked s =
      let ids = order (union (map item_id keyword_results) (map ranked_id semantic_ranked)) in
      let c = fusable_items-Collected keyword_results ids s in
      let scored =
        sort_by (λ a b. fl.less b.1 a.1)
          (map (fused_hit fl order q include_pinned pinned_ids keyword_results semantic_ranked)
            c.items) in
      record {
        hits = map hit_of (take limit scored);
        returned = rw (c.returned) refl;
        visible = All-map (HitShown q include_pinned) hit_of (take limit scored) (
            All-take ScoredShown limit scored (
              All-sort_by _ ScoredShown _ (
                All-map ScoredShown
                  (fused_hit fl order q include_pinned pinned_ids keyword_results semantic_ranked)
                  c.items c.visible)));
      }
