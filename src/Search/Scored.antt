-- ===== src/Search/Scored.antt =====
-- core/domain/models/scored_memory.py, and the pages of one combined stream.
use openchronicle_mcp.Base.{
  ℕ, zero, suc, ◌+◌, ◌≤◌, ◌≡◌, refl, ap, sym, ◌∙◌, List, [], ◌∷◌, ◌++◌, Option, none, some, String,
  Bool, arith, take, drop, take-drop, str_eq,
}
use openchronicle_mcp.Domain.{MemoryItem}

pub data Channel : Type 0 where
  pinned keyword semantic hybrid : Channel

-- `F` stands for Python's floats.
pub record ScoredMemory (F : Type 0) : Type 0 where
  pub item : MemoryItem
  pub channel : Channel
  pub rrf_score : Option F
  pub semantic_similarity : Option F
  pub keyword_rank : Option ℕ

module _ {F : Type 0} where
  abbrev pub pinned_hit : MemoryItem → ScoredMemory F
  pinned_hit i = record {
    item = i;
    channel = pinned;
    rrf_score = none;
    semantic_similarity = none;
    keyword_rank = none;
  }

  -- `enumerate(items, start=rank)`, as keyword hits: `_wrap_keyword_ranked`.
  abbrev pub keyword_hits : ℕ → List MemoryItem → List (ScoredMemory F)
  keyword_hits rank [] = []
  keyword_hits rank (i ∷ is) =
      record {
        item = i;
        channel = keyword;
        rrf_score = none;
        semantic_similarity = none;
        keyword_rank = some rank;
      }
      ∷ keyword_hits (rank + 1) is

  pub keyword_hits-take :
      (n rank : ℕ) (is : List MemoryItem)
      → keyword_hits rank (take n is) ≡ take n (keyword_hits rank is)
  keyword_hits-take zero rank is = refl
  keyword_hits-take (suc n) rank [] = refl
  keyword_hits-take (suc n) rank (i ∷ is) = rw (keyword_hits-take n (rank + 1) is)

  abbrev pub hit_has : String → ScoredMemory F → Bool
  hit_has k h = str_eq h.item.id k

module _ {A : Type 0} where
  pub take-append_take :
      (n m : ℕ) (xs ys : List A) → n ≤ m → take n (xs ++ take m ys) ≡ take n (xs ++ ys)
  take-append_take zero m xs ys h = refl
  take-append_take (suc n) m (x ∷ xs) ys h =
      ap (λ zs. x ∷ zs) (take-append_take n m xs ys (omega arith))
  take-append_take (suc n) zero [] ys h = absurd (omega arith)
  take-append_take (suc n) (suc m) [] [] h = refl
  take-append_take (suc n) (suc m) [] (y ∷ ys) h =
      ap (λ zs. y ∷ zs) (take-append_take n m [] ys (omega arith))

  -- A page that ends at `offset + top_k` needs no more of the second part than that.
  pub page-append_take :
      (offset top_k : ℕ) (xs ys : List A)
      → take top_k (drop offset (xs ++ take (offset + top_k) ys))
        ≡ take top_k (drop offset (xs ++ ys))
  page-append_take offset top_k xs ys =
      sym (take-drop offset top_k (xs ++ take (offset + top_k) ys))
      ∙ ap (drop offset) (take-append_take (offset + top_k) (offset + top_k) xs ys (omega arith))
      ∙ take-drop offset top_k (xs ++ ys)

  -- Any longer part will do.
  pub page-append_take_le :
      (offset top_k m : ℕ) (xs ys : List A)
      → offset + top_k ≤ m
      → take top_k (drop offset (xs ++ take m ys)) ≡ take top_k (drop offset (xs ++ ys))
  page-append_take_le offset top_k m xs ys h =
      sym (take-drop offset top_k (xs ++ take m ys))
      ∙ ap (drop offset) (take-append_take (offset + top_k) m xs ys h)
      ∙ take-drop offset top_k (xs ++ ys)
