-- ===== src/Git/Guarded.antt =====
-- What reaches git's command line as the start of a walk.
use openchronicle_mcp.Base.{
  ℕ, ◌≡◌, refl, Bool, true, false, Option, none, some, List, [], ◌∷◌, String, inl, inr, Bool-cases,
  ℤ,
}
use openchronicle_mcp.Domain.{Result, DateTime, MemoryItem}
use openchronicle_mcp.Store.Conn.{Store}
use openchronicle_mcp.Store.Memory.{list_memory_by_source}
use openchronicle_mcp.Git.Onboard.{
  ExtractedHistory, looks_like_hash, usable_watermark, onboard_git_prepare, walk_from, unforced,
}

module _ (f g : Option String → Result ExtractedHistory) (at_none : f none ≡ g none)
    (at_hash : (hash : String) → looks_like_hash hash ≡ true → f (some hash) ≡ g (some hash)) where
  at_usable : (items : List MemoryItem) → f (usable_watermark items) ≡ g (usable_watermark items)
  unfolding usable_watermark
  at_usable [] = at_none
  at_usable (m ∷ ms) = elim (Bool-cases (looks_like_hash m.content)) [
    | inl good ↦ rw good (at_hash m.content good)
    | inr bad ↦ rw bad at_none
  ]

  module _ (digit : ℕ → Bool) (id : String) (now : DateTime) (project_id : String)
      (max_clusters : ℤ) where
    walk_from-agree :
        (point : Option String) (s : Store)
        → f point ≡ g point
        → walk_from digit id now project_id max_clusters f point s
          ≡ walk_from digit id now project_id max_clusters g point s
    walk_from-agree point s e = rw e refl

    unforced-agree :
        (existing : List MemoryItem) (point : Option String) (s : Store)
        → f point ≡ g point
        → unforced digit id now project_id max_clusters f existing point s
          ≡ unforced digit id now project_id max_clusters g existing point s
    unforced-agree [] none s e = walk_from-agree none s e
    unforced-agree [] (some hash) s e = walk_from-agree (some hash) s e
    unforced-agree (m ∷ ms) none s e = refl
    unforced-agree (m ∷ ms) (some hash) s e = walk_from-agree (some hash) s e

    -- Whatever the store holds, a run asks for a walk from nowhere or from a text that looks like a
    -- hash: two ways to walk that agree on those give the same result and the same tables.
    pub onboard_git_prepare_guarded :
        (force : Bool) (s : Store)
        → onboard_git_prepare digit id now project_id max_clusters f force s
          ≡ onboard_git_prepare digit id now project_id max_clusters g force s
    unfolding onboard_git_prepare list_memory_by_source
    onboard_git_prepare_guarded true s = rw (walk_from, at_none) refl
    onboard_git_prepare_guarded false s = unforced-agree _ _ s (at_usable _)
