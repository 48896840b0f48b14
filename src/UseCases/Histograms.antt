-- ===== src/UseCases/Histograms.antt =====
-- The histograms of stats_memory against the items.
use openchronicle_mcp.Base.{
  ℕ, zero, suc, ◌+◌, ◌≤◌, ◌≡◌, refl, ap, sym, ◌∙◌, Bool, true, Option, List, [], ◌∷◌, String, arith,
  str_eq, eq_iff, if◌then◌else◌, length, take, sort_by, insert_sorted, filter, length-sort_by,
  length-map, length-take_le, is_some, ◌⊎◌, inl, inr, count, pos,
}
use openchronicle_mcp.Domain.{MemoryItem, ok}
use openchronicle_mcp.Store.Conn.{MemoryRow, Store}
use openchronicle_mcp.Store.Memory.{
  in_scope, count_memory, list_memory, list_where, all_of, pinned_then_newer, row_to_memory_item,
}
use openchronicle_mcp.Service.Rerun.{items_of}
use openchronicle_mcp.UseCases.Stats.{
  Histogram, bump, tally, source_of, Tallies, tally_item, tally_items, no_tallies, more_frequent,
  beyond, Stats, execute,
}

-- What a histogram counts for a key.
abbrev weight : String → Histogram → ℕ
weight k [] = 0
weight k (e ∷ m) = if str_eq e.0 k then e.1 + weight k m else weight k m

abbrev sum : Histogram → ℕ
sum [] = 0
sum (e ∷ m) = e.1 + sum m

abbrev one_if : Bool → ℕ
one_if b = if b then 1 else 0

weight-bump :
    (k j : String) (m : Histogram) → weight k (bump j m) ≡ weight k m + one_if (str_eq j k)
weight-bump k j [] = ground arith
weight-bump k j (e ∷ m) = ground (arith, eq_iff e.0 j, eq_iff e.0 k, eq_iff j k, weight-bump k j m)

sum-bump : (j : String) (m : Histogram) → sum (bump j m) ≡ suc (sum m)
sum-bump j [] = refl
sum-bump j (e ∷ m) = ground (arith, sum-bump j m)

weight-tally :
    (k : String) (js : List String) (m : Histogram)
    → weight k (tally js m) ≡ weight k m + count (λ j. str_eq j k) js
weight-tally k [] m = omega arith
weight-tally k (j ∷ js) m = ground (arith, weight-tally k js (bump j m), weight-bump k j m)

weight-insert_sorted :
    (k : String) (e : String × ℕ) (m : Histogram)
    → weight k (insert_sorted more_frequent e m) ≡ weight k (e ∷ m)
weight-insert_sorted k e [] = refl
weight-insert_sorted k e (f ∷ m) = ground (arith, weight-insert_sorted k e m)

weight-sort_by : (k : String) (m : Histogram) → weight k (sort_by more_frequent m) ≡ weight k m
weight-sort_by k [] = refl
weight-sort_by k (e ∷ m) =
    ground (arith, weight-insert_sorted k e (sort_by more_frequent m), weight-sort_by k m)

weight-take_le : (k : String) (n : ℕ) (m : Histogram) → weight k (take n m) ≤ weight k m
weight-take_le k zero m = omega arith
weight-take_le k (suc n) [] = omega arith
weight-take_le k (suc n) (e ∷ m) = ground (arith, weight-take_le k n m)

-- How often a tag occurs in the items.
abbrev occurrences : String → List MemoryItem → ℕ
occurrences k [] = 0
occurrences k (i ∷ is) = count (λ t. str_eq t k) i.tags + occurrences k is

tally_items-pinned :
    (is : List MemoryItem) (t : Tallies)
    → (tally_items is t).pinned ≡ t.pinned + count (λ i. i.pinned) is
unfolding tally_items
tally_items-pinned [] t = omega arith
tally_items-pinned (i ∷ is) t = ground (arith, tally_items-pinned is (tally_item i t))

tally_items-by_tag :
    (k : String) (is : List MemoryItem) (t : Tallies)
    → weight k (tally_items is t).by_tag ≡ weight k t.by_tag + occurrences k is
unfolding tally_items
tally_items-by_tag k [] t = omega arith
tally_items-by_tag k (i ∷ is) t =
    omega (arith, tally_items-by_tag k is (tally_item i t), weight-tally k i.tags t.by_tag)

tally_items-by_source :
    (k : String) (is : List MemoryItem) (t : Tallies)
    → weight k (tally_items is t).by_source
      ≡ weight k t.by_source + count (λ i. str_eq (source_of i) k) is
unfolding tally_items
tally_items-by_source k [] t = omega arith
tally_items-by_source k (i ∷ is) t =
    ground
      (arith, tally_items-by_source k is (tally_item i t), weight-bump k (source_of i) t.by_source)

tally_items-sum :
    (is : List MemoryItem) (t : Tallies)
    → sum (tally_items is t).by_source ≡ sum t.by_source + length is
unfolding tally_items
tally_items-sum [] t = omega arith
tally_items-sum (i ∷ is) t =
    omega (arith, tally_items-sum is (tally_item i t), sum-bump (source_of i) t.by_source)

length-items :
    (project_id : Option String) (ms : List MemoryRow)
    → length (filter (in_scope project_id) ms) ≡ length (items_of project_id ms)
length-items project_id ms =
    same ms ∙ sym (length-sort_by pinned_then_newer _) ∙ sym (length-map row_to_memory_item _)
  where
    same :
        (rs : List MemoryRow)
        → length (filter (in_scope project_id) rs)
          ≡ length (filter (list_where (all_of project_id)) rs)
    same [] = refl
    same (r ∷ rs) = ground (arith, same rs)

-- Enough room shows everything.
take_or_beyond :
    (n : ℕ) (m : Histogram) → (is_some (beyond (length m) (pos n)) ≡ true) ⊎ (take n m ≡ m)
take_or_beyond zero [] = inr refl
take_or_beyond zero (e ∷ m) = inl (ground arith)
take_or_beyond (suc n) [] = inr refl
take_or_beyond (suc n) (e ∷ m) = elim (take_or_beyond n m) [
  | inl more ↦ inl (ground arith)
  | inr all ↦ inr (ap (λ f. e ∷ f) all)
]

-- The statistics of some items with room for `n` tags.
pub record Summary (items : List MemoryItem) (n : ℕ) (r : Stats) : Type 0 where
  pub counted : r.total ≡ length items
  pub pins : r.pinned ≡ count (λ i. i.pinned) items
  pub sources : (k : String) → weight k r.by_source ≡ count (λ i. str_eq (source_of i) k) items
  pub all_sources : sum r.by_source ≡ r.total
  pub room : length r.by_tag ≤ n
  pub tags : (k : String) → weight k r.by_tag ≤ occurrences k items
  pub all_tags :
      (is_some r.other_tags ≡ true) ⊎ ((k : String) → weight k r.by_tag ≡ occurrences k items)

-- stats_memory answers and changes nothing. The total and the pins are those of the scope's items;
-- the sources are counted exactly and add up to the total; at most the tags asked for are shown, none
-- with more than its occurrences, and every tag with exactly these if other_tags is absent.
pub execute-Summary :
    (project_id : Option String) (n : ℕ) (s : Store)
    → (r : Stats) × (execute project_id (pos n) s ≡ (ok r, s))
      × Summary (items_of project_id s.memories) n r
unfolding execute count_memory list_memory
execute-Summary project_id n s =
    let items = items_of project_id s.memories in
    let t = tally_items items no_tallies in
    let ranked = sort_by more_frequent t.by_tag in
    let exact : (k : String) → weight k ranked ≡ occurrences k items =
      λ k. omega (arith, weight-sort_by k t.by_tag, tally_items-by_tag k items no_tallies) in
    (
      _,
      refl,
      record {
        counted = length-items project_id s.memories;
        pins = omega (arith, tally_items-pinned items no_tallies);
        sources = λ k. omega (arith, tally_items-by_source k items no_tallies);
        all_sources =
            omega (arith, tally_items-sum items no_tallies, length-items project_id s.memories);
        room = length-take_le n ranked;
        tags = λ k. omega (arith, exact k, weight-take_le k n ranked);
        all_tags = elim (take_or_beyond n ranked) [
          | inl more ↦ inl more
          | inr all ↦ inr (λ k. ap (weight k) all ∙ exact k)
        ];
      },
    )
