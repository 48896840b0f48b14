-- ===== src/Service/Semantic.antt =====
-- `_semantic_search` and `search_semantic`. A type `F` stands for Python's floats, and `Floats` for
-- what the code takes from them and from numpy. The clock's and the stages' metrics are left out.
use openchronicle_mcp.Base.{
  ℕ, ◌+◌, ◌*◌, min, Bool, true, false, not, ◌&&◌, ◌||◌, Option, none, some, List, [], ◌∷◌, ◌++◌,
  map, String, str_eq, opt_str_eq, is_some, if◌then◌else◌, length, filter, all, contains, take,
  drop,
}
use openchronicle_mcp.Domain.{Result, ok, err, revision_changed, MemoryItem}
use openchronicle_mcp.Store.Conn.{Store, Action, pure, ◌>>=◌}
use openchronicle_mcp.Store.Memory.{get_memory}
use openchronicle_mcp.Store.Embedding.{SpaceFilter, list_embeddings}
use openchronicle_mcp.Search.Ranked.{Engine, Query, eligible_memory_ids}
use openchronicle_mcp.Search.Scored.{ScoredMemory, semantic, pinned_hit}
use openchronicle_mcp.Search.Keyword.{floated_pins, item_id}
use openchronicle_mcp.Service.Port.{World, Snapshot, Service, embed_single}

-- `dot` is the product of two float32 vectors, and `best k` argpartition and argsort on the scores:
-- k of the candidates, the best first. `reciprocal n` is `1.0 / n`.
pub record Floats (F : Type 0) : Type 0 where
  pub zero : F
  pub add : F → F → F
  pub reciprocal : ℕ → F
  pub less : F → F → Bool
  pub dot : List ℕ → List ℕ → F
  pub best : ℕ → List (String × F) → List (String × F)

-- What `revision_snapshot` answers at the start and after each of the two embeddings.
pub record Readings : Type 0 where
  pub opening : Snapshot
  pub first : Snapshot
  pub second : Snapshot

abbrev both : Bool → Bool → Bool
both a b = if a then b else not b

abbrev pub same_revision : Snapshot → Snapshot → Bool
same_revision a b = both a.known b.known && opt_str_eq a.value b.value

-- The query's vector with the snapshot that stayed the same around it.
abbrev settled : Snapshot → Snapshot → Snapshot → List ℕ → Result (List ℕ × Snapshot)
settled opening before after vec =
    if opening.known && not after.known then err revision_changed else ok (vec, before)

abbrev second_attempt : Readings → Result (List ℕ) × Service → Result (List ℕ × Snapshot) × Service
second_attempt rs (err e, sv) = (err e, sv)
second_attempt rs (ok vec, sv) = (
  if same_revision rs.first rs.second
      then settled rs.opening rs.first rs.second vec
      else err revision_changed,
  sv,
)

abbrev first_attempt :
    World → Readings → String → Result (List ℕ) × Service → Result (List ℕ × Snapshot) × Service
first_attempt w rs text (err e, sv) = (err e, sv)
first_attempt w rs text (ok vec, sv) =
    if same_revision rs.opening rs.first
    then (settled rs.opening rs.opening rs.first vec, sv)
    else second_attempt rs (embed_single w text sv)

unfoldable pub embed_stable :
    World → Readings → String → Service → Result (List ℕ × Snapshot) × Service
embed_stable w rs text sv = first_attempt w rs text (embed_single w text sv)

abbrev query_space : World → List ℕ → Snapshot → SpaceFilter
query_space w vec snapshot = record {
  memory_ids = none;
  model = some w.port.model_name;
  provider = some w.port.provider_name;
  dimensions = some (length vec);
  settings_fingerprint = some w.port.settings_fingerprint;
  model_revision = snapshot.value;
  match_revision = snapshot.known;
}

abbrev has_any : List String → Bool
has_any [] = false
has_any (t ∷ ts) = true

module _ {F : Type 0} (fl : Floats F) (w : World) where
  -- No candidate is no ranking.
  abbrev pub best_of : ℕ → List (String × F) → List (String × F)
  best_of limit [] = []
  best_of limit (c ∷ cs) = fl.best (min limit (length (c ∷ cs))) (c ∷ cs)

  -- The candidates that may be ranked, with their scores, and the best of them.
  unfoldable pub rank_vectors :
      Option String → List String → List String → ℕ → List ℕ × Snapshot → Action (List (String × F))
  rank_vectors project_id tags exclude_ids limit (vec, snapshot) = do
    all_embeddings ← list_embeddings (query_space w vec snapshot)
    eligible ← eligible_memory_ids project_id tags
    let narrowed = is_some project_id || has_any tags
    let ids =
        filter (λ c. not (contains exclude_ids c.0) && (not narrowed || contains eligible c.0))
          all_embeddings
    pure (best_of limit (map (λ c. (c.0, fl.dot c.1 vec)) ids))

  abbrev rank_settled :
      Option String
      → List String
      → List String
      → ℕ
      → Result (List ℕ × Snapshot) × Service
      → Result (List (String × F)) × Service
  rank_settled project_id tags exclude_ids limit (err e, sv) = (err e, sv)
  rank_settled project_id tags exclude_ids limit (ok found, sv) =
      let (r, s) = rank_vectors project_id tags exclude_ids limit found sv.store in
      (r, record sv { store = s })

  -- `_semantic_search`.
  unfoldable pub semantic_search :
      Readings
      → String
      → Option String
      → List String
      → List String
      → ℕ
      → Service
      → Result (List (String × F)) × Service
  semantic_search rs text project_id tags exclude_ids limit sv =
      rank_settled project_id tags exclude_ids limit (embed_stable w rs text sv)

-- The filters on a ranked memory: hidden pins, tags, and the project, where an empty one is none and
-- a pin without a project is in every scope.
abbrev pub in_reach : Option String → MemoryItem → Bool
in_reach none i = true
in_reach (some p) i =
    str_eq p "" || opt_str_eq i.project_id (some p) || (i.pinned && not (is_some i.project_id))

abbrev pub shown : Query → Bool → MemoryItem → Bool
shown q include_pinned i =
    not (i.pinned && not include_pinned) && all (contains i.tags) q.tags && in_reach q.project_id i

module _ {F : Type 0} where
  abbrev semantic_hit : MemoryItem → F → ScoredMemory F
  semantic_hit i similarity = record {
    item = i;
    channel = semantic;
    rrf_score = none;
    semantic_similarity = some similarity;
    keyword_rank = none;
  }

  abbrev pub add_shown :
      Query → Bool → F → Option MemoryItem → List (ScoredMemory F) → List (ScoredMemory F)
  add_shown q include_pinned similarity none hits = hits
  add_shown q include_pinned similarity (some i) hits =
      if shown q include_pinned i then semantic_hit i similarity ∷ hits else hits

  -- The loop over the ranked ids.
  unfoldable pub semantic_hits : Query → Bool → List (String × F) → Action (List (ScoredMemory F))
  semantic_hits q include_pinned [] = pure []
  semantic_hits q include_pinned ((id, similarity) ∷ ranked) = do
    item ← get_memory id
    hits ← semantic_hits q include_pinned ranked
    pure (add_shown q include_pinned similarity item hits)

  -- The page of the combined stream.
  abbrev pub page_of : ℕ → ℕ → List MemoryItem → List (ScoredMemory F) → List (ScoredMemory F)
  page_of top_k offset floated ranked = take top_k (drop offset (map pinned_hit floated ++ ranked))

  module _ (fl : Floats F) (w : World) (rs : Readings) (e : Engine) (q : Query) (top_k : ℕ)
      (include_pinned : Bool) (offset : ℕ) where
    abbrev pub present :
        List MemoryItem
        → Result (List (String × F)) × Service
        → Result (List (ScoredMemory F)) × Service
    present floated (err x, sv) = (err x, sv)
    present floated (ok ranked, sv) =
        let (r, s) =
          (do
            hits ← semantic_hits q include_pinned ranked
            pure (page_of top_k offset floated hits))
            sv.store in
        (r, record sv { store = s })

    abbrev pub rank_unfloated :
        Result (List MemoryItem) × Store → Service → Result (List (ScoredMemory F)) × Service
    rank_unfloated (err x, s) sv = (err x, record sv { store = s })
    rank_unfloated (ok floated, s) sv = present floated (
        semantic_search fl w rs q.text q.project_id q.tags (map item_id floated)
          ((top_k + offset) * 2) (record sv { store = s }))

    unfoldable pub search_semantic : ℕ → Service → Result (List (ScoredMemory F)) × Service
    search_semantic pinned_limit sv =
        rank_unfloated
          (floated_pins e (record q { phrase = false }) include_pinned pinned_limit sv.store) sv
