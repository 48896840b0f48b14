-- ===== src/UseCases/Answers.antt =====
-- `execute` of use_cases/search_memory.py in every mode.
use openchronicle_mcp.Base.{
  ℕ, ◌+◌, ◌*◌, ◌≡◌, refl, ap, Bool, true, false, Option, none, some, List, [], ◌∷◌, map, String,
  arith, str_eq, All, All-filter, ◌⊎◌, inl, inr, Bool-cases, ℤ, to_nat,
}
use openchronicle_mcp.Table.{IsUnique, find}
use openchronicle_mcp.Domain.{Error, Result, ok, err, validation, operational, MemoryItem}
use openchronicle_mcp.Store.Conn.{Store, memory_key}
use openchronicle_mcp.Store.Memory.{get_memory, found_item}
use openchronicle_mcp.Search.Ranked.{Engine, Query, accepted, keep_unlisted}
use openchronicle_mcp.Search.Scored.{ScoredMemory}
use openchronicle_mcp.Search.Keyword.{
  search_keyword, keyword_stream, search_keyword_answered, search_keyword_refused, searchable,
  floated_pins_refused, float_set, floated_pins-float_set, unfloated, item_id,
}
use openchronicle_mcp.Service.Port.{Service}
use openchronicle_mcp.Service.Semantic.{
  semantic_search, semantic_hits, add_shown, search_semantic, present,
}
use openchronicle_mcp.Service.Hybrid.{Searcher}
use openchronicle_mcp.Service.Shown.{
  HitShown, float_set-IsShown, ranked_items-IsShown, keyword_hits-shown,
}
use openchronicle_mcp.Service.Fallback.{
  Answers, page-Answers, search_hybrid-Answers, search_hybrid_unread,
}
use openchronicle_mcp.Service.Halves.{readable}
use openchronicle_mcp.UseCases.Search.{Embeddings, valid_mode, by_meaning, by_both, execute}

module _ {F : Type 0} (e : Engine) (q : Query) (top_k : ℕ) (include_pinned : Bool) (offset : ℕ)
    (pinned_limit : ℕ) where
  search_keyword-Answers :
      (s : Store)
      → IsUnique memory_key s.memories
      → searchable e q include_pinned pinned_limit (offset + top_k) ≡ true
      → Answers {F = F} q include_pinned top_k
          (search_keyword e q top_k include_pinned offset pinned_limit s).0
  unfolding keyword_stream unfloated
  search_keyword-Answers s u h =
      rw (search_keyword_answered {F = F} e q include_pinned pinned_limit top_k offset s u h) (
        page-Answers q top_k include_pinned offset
          (float_set e q include_pinned pinned_limit s.memories) _
          (float_set-IsShown e q include_pinned s.memories pinned_limit)
          (keyword_hits-shown F q include_pinned 1 _ (
            All-filter _
              (keep_unlisted (map item_id (float_set e q include_pinned pinned_limit s.memories))) _
              (ranked_items-IsShown e q include_pinned s.memories))))

-- The loop of a semantic search reads the store and raises nothing.
record Kept {F : Type 0} (q : Query) (include_pinned : Bool) (s : Store)
    (r : Result (List (ScoredMemory F)) × Store) : Type 0 where
  hits : List (ScoredMemory F)
  returned : r ≡ (ok hits, s)
  visible : All (HitShown q include_pinned) hits

module _ {F : Type 0} (q : Query) (include_pinned : Bool) where
  add_visible :
      (similarity : F) (o : Option MemoryItem) (hits : List (ScoredMemory F))
      → All (HitShown q include_pinned) hits
      → All (HitShown q include_pinned) (add_shown q include_pinned similarity o hits)
  add_visible similarity none hits a = a
  add_visible similarity (some i) hits a = ground arith

  semantic_hits-Kept :
      (ranked : List (String × F)) (s : Store)
      → Kept q include_pinned s (semantic_hits q include_pinned ranked s)
  unfolding semantic_hits get_memory
  semantic_hits-Kept [] s = record { hits = []; returned = refl; visible = tt }
  semantic_hits-Kept ((id, similarity) ∷ ranked) s =
      let later = semantic_hits-Kept ranked s in
      let o = found_item (find memory_key id s.memories) in
      record {
        hits = add_shown q include_pinned similarity o later.hits;
        returned = rw (later.returned) refl;
        visible = add_visible similarity o later.hits later.visible;
      }

module _ {F : Type 0} (c : Embeddings F) (e : Engine) (q : Query) (top_k : ℕ)
    (include_pinned : Bool) (offset : ℕ) (pinned_limit : ℕ) where
  -- What the semantic half answers: the pins float on the words of the query, never as a phrase.
  abbrev pub vectors : Service → Result (List (String × F)) × Service
  vectors sv =
      semantic_search c.floats c.world c.readings q.text q.project_id q.tags
        (map item_id
          (float_set e (record q { phrase = false }) include_pinned pinned_limit sv.store.memories))
        ((top_k + offset) * 2) sv

  abbrev by_vectors : Service → Result (List (ScoredMemory F)) × Service
  by_vectors =
      search_semantic c.floats c.world c.readings e q top_k include_pinned offset pinned_limit

  abbrev floated_of : Service → List MemoryItem
  floated_of sv =
      float_set e (record q { phrase = false }) include_pinned pinned_limit sv.store.memories

  abbrev presented :
      Service → Result (List (String × F)) × Service → Result (List (ScoredMemory F)) × Service
  presented sv = present c.floats c.world c.readings e q top_k include_pinned offset (floated_of sv)

  -- The pins float on the words of the query, and FTS5 accepts them.
  abbrev floatable : Bool
  floatable = searchable e (record q { phrase = false }) include_pinned pinned_limit 0

  by_vectors-presented :
      (sv : Service) → floatable ≡ true → by_vectors sv ≡ presented sv (vectors sv)
  unfolding search_semantic
  by_vectors-presented sv h =
      rw
        (floated_pins-float_set e (record q { phrase = false }) include_pinned pinned_limit 0
          sv.store h)
        refl

  by_vectors_refused : (sv : Service) → floatable ≡ false → (by_vectors sv).0 ≡ err operational
  unfolding search_semantic
  by_vectors_refused sv h =
      rw
        (floated_pins_refused e (record q { phrase = false }) include_pinned pinned_limit sv.store
          (ground (arith, h)) (ground (arith, h)))
        refl

  presented-cases :
      (sv : Service) (r : Result (List (String × F)) × Service)
      → Answers q include_pinned top_k (presented sv r).0
        ⊎ ((x : Error) × (r.0 ≡ err x) × ((presented sv r).0 ≡ err x))
  presented-cases sv (err x, sv') = inr (x, refl, refl)
  presented-cases sv (ok ranked, sv') =
      let k = semantic_hits-Kept q include_pinned ranked sv'.store in
      inl (
        rw (k.returned) (
          page-Answers q top_k include_pinned offset (floated_of sv) k.hits
            (float_set-IsShown e (record q { phrase = false }) include_pinned sv.store.memories
              pinned_limit)
            k.visible))

module _ {F : Type 0} (e : Engine) (q : Query) (top_k : ℕ) (include_pinned : Bool) (offset : ℕ)
    (pinned_limit : ℤ) where
  -- Why a search raises: the arguments, a query that FTS5 refuses, as a phrase or as words, or the
  -- semantic half of a semantic search.
  pub data Raises (embeddings : Option (Embeddings F)) (mode : String) (sr : Searcher) (x : Error)
      : Type 0 where
    unknown_mode : valid_mode mode ≡ false → x ≡ validation → Raises embeddings mode sr x
    no_service :
        str_eq mode "semantic" ≡ true
        → embeddings ≡ none
        → x ≡ validation
        → Raises embeddings mode sr x
    bad_query :
        (phrase : Bool)
        → accepted e (record q { phrase = phrase }) ≡ false
        → x ≡ operational
        → Raises embeddings mode sr x
    no_vectors :
        (c : Embeddings F)
        → str_eq mode "semantic" ≡ true
        → embeddings ≡ some c
        → (vectors c e q top_k include_pinned offset (to_nat pinned_limit) sr.service).0 ≡ err x
        → Raises embeddings mode sr x

  abbrev Searched :
      Option (Embeddings F) → String → Searcher → Result (List (ScoredMemory F)) → Type 0
  Searched embeddings mode sr r =
      Answers q include_pinned top_k r ⊎ ((x : Error) × (r ≡ err x) × Raises embeddings mode sr x)

  semantic-Searched :
      (embeddings : Option (Embeddings F)) (mode : String) (sr : Searcher)
      → str_eq mode "semantic" ≡ true
      → Searched embeddings mode sr
          (by_meaning e q top_k include_pinned offset pinned_limit embeddings sr).0
  semantic-Searched none mode sr m = inr (validation, refl, no_service m refl refl)
  semantic-Searched (some c) mode sr m =
      let limit = to_nat pinned_limit in
      elim (Bool-cases (floatable c e q top_k include_pinned offset limit)) [
        | inr bad ↦ inr (
          operational,
          by_vectors_refused c e q top_k include_pinned offset limit sr.service bad,
          bad_query false (ground (arith, bad)) refl,
        )
        | inl good ↦
            rw (by_vectors-presented c e q top_k include_pinned offset limit sr.service good)
              (elim (presented-cases c e q top_k include_pinned offset limit sr.service
                (vectors c e q top_k include_pinned offset limit sr.service)) [
                  | inl a ↦ inl a
                  | inr (x, failed, raised) ↦ inr (x, raised, no_vectors c m refl failed)
                ])
      ]

  keyword-Searched :
      (embeddings : Option (Embeddings F)) (mode : String) (sr : Searcher)
      → IsUnique memory_key sr.service.store.memories
      → Searched embeddings mode sr
          (search_keyword {F = F} e q top_k include_pinned offset
            (to_nat pinned_limit)
            sr.service.store).0
  keyword-Searched embeddings mode sr u =
      let limit = to_nat pinned_limit in
      elim (Bool-cases (searchable e q include_pinned limit (offset + top_k))) [
        | inl good ↦
            inl
              (search_keyword-Answers e q top_k include_pinned offset limit sr.service.store u good)
        | inr bad ↦ inr (
          operational,
          ap (λ r. r.0)
              (search_keyword_refused e q include_pinned limit top_k offset sr.service.store u bad),
          bad_query q.phrase (ground (arith, bad)) refl,
        )
      ]

  hybrid-Searched :
      (embeddings : Option (Embeddings F)) (mode : String) (sr : Searcher)
      → IsUnique memory_key sr.service.store.memories
      → Searched embeddings mode sr
          (by_both e q top_k include_pinned offset pinned_limit embeddings sr).0
  hybrid-Searched none mode sr u = keyword-Searched none mode sr u
  hybrid-Searched (some c) mode sr u =
      let limit = to_nat pinned_limit in
      elim (Bool-cases (readable e q top_k include_pinned offset limit)) [
        | inl good ↦ inl (
            search_hybrid-Answers c.floats c.order c.world c.readings e q top_k include_pinned
              offset limit sr u good)
        | inr bad ↦ inr (
          operational,
          ap (λ r. r.0)
              (search_hybrid_unread c.floats c.order c.world c.readings e q top_k include_pinned
                offset limit sr u bad),
          bad_query q.phrase (ground (arith, bad)) refl,
        )
      ]

  -- Where memory ids are unique, a search in any mode returns at most `top_k` hits, floated pins
  -- included, each of which carries all the tags, is in the project's scope or a pin without a
  -- project, and is no pin when pins are hidden. It raises only for an unknown mode, for a semantic
  -- search without an embedding service, OperationalError for a query that FTS5's MATCH refuses, and,
  -- in a semantic search, what its semantic half raises.
  pub execute-Searched :
      (embeddings : Option (Embeddings F)) (mode : String) (sr : Searcher)
      → IsUnique memory_key sr.service.store.memories
      → Answers q include_pinned top_k
          (execute e q top_k include_pinned offset pinned_limit embeddings mode sr).0
        ⊎ ((x : Error) × ((execute e q top_k include_pinned offset pinned_limit embeddings mode
                sr).0
              ≡ err x)
            × Raises embeddings mode sr x)
  unfolding execute
  execute-Searched embeddings mode sr u = elim (Bool-cases (valid_mode mode)) [
    | inr unknown ↦ rw unknown (inr (validation, refl, unknown_mode unknown refl))
    | inl valid ↦ rw valid (elim (Bool-cases (str_eq mode "semantic")) [
      | inl semantic ↦ rw semantic (semantic-Searched embeddings mode sr semantic)
      | inr other ↦ rw other (elim (Bool-cases (str_eq mode "hybrid")) [
        | inl hybrid ↦ rw hybrid (hybrid-Searched embeddings mode sr u)
        | inr plain ↦ rw plain (keyword-Searched embeddings mode sr u)
      ])
    ])
  ]
