-- ===== src/UseCases/Stats.antt =====
-- use_cases/stats_memory.py. A histogram is the list of a dict's items, in insertion order.
use openchronicle_mcp.Base.{
  ℕ, suc, ◌+◌, ◌-◌, Bool, ◌&&◌, ◌||◌, Option, none, some, List, [], ◌∷◌, String, ltb, ◌==◌, str_eq,
  str_lt, if◌then◌else◌, length, take, sort_by, ℤ, pos, negsuc,
}
use openchronicle_mcp.Domain.{MemoryItem}
use openchronicle_mcp.Store.Conn.{Action, pure, ◌>>=◌}
use openchronicle_mcp.Store.Memory.{count_memory, list_memory, all_of}

abbrev pub Histogram : Type 0
Histogram = List (String × ℕ)

-- `d[k] = d.get(k, 0) + 1`.
abbrev pub bump : String → Histogram → Histogram
bump k [] = (k, 1) ∷ []
bump k (e ∷ m) = if str_eq e.0 k then (e.0, suc e.1) ∷ m else e ∷ bump k m

abbrev pub tally : List String → Histogram → Histogram
tally [] m = m
tally (k ∷ ks) m = tally ks (bump k m)

abbrev pub source_of : MemoryItem → String
source_of i = if str_eq i.source "" then "unknown" else i.source

pub record Tallies : Type 0 where
  pub pinned : ℕ
  pub by_tag : Histogram
  pub by_source : Histogram

-- One turn of the loop over the items.
abbrev pub tally_item : MemoryItem → Tallies → Tallies
tally_item i t = record {
  pinned = if i.pinned then suc t.pinned else t.pinned;
  by_tag = tally i.tags t.by_tag;
  by_source = bump (source_of i) t.by_source;
}

unfoldable pub tally_items : List MemoryItem → Tallies → Tallies
tally_items [] t = t
tally_items (i ∷ is) t = tally_items is (tally_item i t)

abbrev pub no_tallies : Tallies
no_tallies = record { pinned = 0; by_tag = []; by_source = [] }

-- `key=lambda kv: (-kv[1], kv[0])`.
abbrev pub more_frequent : String × ℕ → String × ℕ → Bool
more_frequent a b = ltb b.1 a.1 || (a.1 == b.1 && str_lt a.0 b.0)

-- `ranked[:top]` and `len(ranked) - top` if it is positive.
abbrev pub slice_to : {A : Type 0} → ℤ → List A → List A
slice_to (pos n) xs = take n xs
slice_to (negsuc n) xs = take (length xs - suc n) xs

abbrev pub beyond : ℕ → ℤ → Option ℕ
beyond len (pos n) = if ltb n len then some (len - n) else none
beyond len (negsuc n) = some (len + suc n)

pub record Stats : Type 0 where
  pub total : ℕ
  pub pinned : ℕ
  pub by_tag : Histogram
  pub by_source : Histogram
  pub other_tags : Option ℕ

unfoldable pub execute : Option String → ℤ → Action Stats
unfolding tally_items
execute project_id top_tags = do
  total ← count_memory project_id
  items ← list_memory (all_of project_id)
  let t = tally_items items no_tallies
  let ranked = sort_by more_frequent t.by_tag
  pure (record {
    total = total;
    pinned = t.pinned;
    by_tag = slice_to top_tags ranked;
    by_source = t.by_source;
    other_tags = beyond (length ranked) top_tags;
  })
