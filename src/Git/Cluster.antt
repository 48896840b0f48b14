-- ===== src/Git/Cluster.antt =====
-- `cluster_commits`. Times are whole microseconds and the overlap test is an exact comparison of
-- fractions. A cluster is its sorted commits and its span; the label is left out. `none` is a cap
-- loop that is still running when its fuel is used up.
use openchronicle_mcp.Base.{
  ℕ, zero, suc, ◌+◌, ◌-◌, ◌*◌, max, Bool, true, false, Option, none, some, List, [], ◌∷◌, ◌++◌, map,
  String, ltb, ◌==◌, if◌then◌else◌, length, contains, sort_by, by_key, count, ℤ, to_nat,
}
use openchronicle_mcp.Git.Commits.{GitCommit, date_of}

abbrev pub Groups : Type 0
Groups = List (List GitCommit)

-- `time_window_hours: float = 72.0`, in microseconds.
abbrev pub time_window : ℕ
time_window = 259_200_000_000

-- Pass 1. `group` is `groups[-1]` and `prev` its last commit; the groups before it are in the answer
-- already.
unfoldable pub time_groups : ℕ → List GitCommit → GitCommit → List GitCommit → Groups
time_groups window group prev [] = group ∷ []
time_groups window group prev (commit ∷ rest) = elim (ltb (prev.date + window) commit.date) [
  | true ↦ group ∷ time_groups window (commit ∷ []) commit rest
  | false ↦ time_groups window (group ++ commit ∷ []) commit rest
]

-- A set of texts, as a list without repetitions.
unfoldable pub distinct_texts : List String → List String
distinct_texts [] = []
distinct_texts (t ∷ ts) = if contains ts t then distinct_texts ts else t ∷ distinct_texts ts

unfoldable pub files_of : List GitCommit → List String
files_of [] = []
files_of (c ∷ cs) = c.files_changed ++ files_of cs

-- `_jaccard(…) > 0.2`: the common files are more than a fifth of all.
unfoldable pub overlaps : List GitCommit → List GitCommit → Bool
unfolding distinct_texts files_of
overlaps prev curr =
    ltb (length (distinct_texts (files_of prev ++ files_of curr)))
      (5 * count (contains (files_of curr)) (distinct_texts (files_of prev)))

-- Pass 2. `last` is `merged[-1]`.
unfoldable pub merge_overlapping : List GitCommit → Groups → Groups
merge_overlapping last [] = last ∷ []
merge_overlapping last (group ∷ groups) = elim (overlaps last group) [
  | true ↦ merge_overlapping (last ++ group) groups
  | false ↦ last ∷ merge_overlapping group groups
]

-- `min(range(len(merged)), key=…)`: the first of the smallest. `best` is the index of the smallest
-- so far and `size` its length; `i` is the next index.
unfoldable pub smallest_from : ℕ → ℕ → ℕ → Groups → ℕ
smallest_from best size i [] = best
smallest_from best size i (g ∷ gs) = elim (ltb (length g) size) [
  | true ↦ smallest_from i (length g) (i + 1) gs
  | false ↦ smallest_from best size (i + 1) gs
]

unfoldable pub smallest_idx : Groups → ℕ
unfolding smallest_from
smallest_idx [] = 0
smallest_idx (g ∷ gs) = smallest_from 0 (length g) 1 gs

-- `merged[k]`, `merged.pop(k)` and `merged[k].extend(group)`.
abbrev pub nth : ℕ → Groups → List GitCommit
nth k [] = []
nth zero (g ∷ gs) = g
nth (suc k) (g ∷ gs) = nth k gs

abbrev pub pop : ℕ → Groups → Groups
pop k [] = []
pop zero (g ∷ gs) = gs
pop (suc k) (g ∷ gs) = g ∷ pop k gs

abbrev pub extend : ℕ → List GitCommit → Groups → Groups
extend k group [] = []
extend zero group (g ∷ gs) = (g ++ group) ∷ gs
extend (suc k) group (g ∷ gs) = g ∷ extend k group gs

abbrev pub merge_into : ℕ → ℕ → ℕ
merge_into smallest size = if ltb 0 smallest then smallest - 1 else if ltb 1 size then 1 else 0

-- The body of the cap loop.
unfoldable pub merge_smallest : Groups → Groups
unfolding smallest_idx
merge_smallest merged =
    let smallest = smallest_idx merged in
    let target = merge_into smallest (length merged) in
    if target == smallest then merged else pop smallest (extend target (nth smallest merged) merged)

unfoldable pub cap_clusters : ℕ → ℕ → Groups → Option Groups
cap_clusters zero limit merged = if ltb limit (length merged) then none else some merged
cap_clusters (suc fuel) limit merged = elim (ltb limit (length merged)) [
  | false ↦ some merged
  | true ↦ cap_clusters fuel limit (merge_smallest merged)
]

pub record CommitCluster : Type 0 where
  pub commits : List GitCommit
  pub time_span : ℕ

abbrev last_date : ℕ → List GitCommit → ℕ
last_date d [] = d
last_date d (c ∷ cs) = last_date c.date cs

abbrev span : List GitCommit → ℕ
span [] = 0
span (c ∷ cs) = last_date c.date cs - c.date

unfoldable pub build_cluster : List GitCommit → CommitCluster
build_cluster group =
    let sorted = sort_by (by_key date_of) group in
    record { commits = sorted; time_span = span sorted }

unfoldable pub merged_groups : ℕ → List GitCommit → Groups
unfolding time_groups merge_overlapping
merged_groups window [] = []
merged_groups window (c ∷ cs) = elim (time_groups window (c ∷ []) c cs) [
  | [] ↦ []
  | g ∷ gs ↦ merge_overlapping g gs
]

abbrev pub map_some {ℓ} : {A B : Type ℓ} → (A → B) → Option A → Option B
map_some f none = none
map_some f (some a) = some (f a)

-- As many turns of the cap loop as there are groups.
unfoldable pub cluster_commits : List GitCommit → ℤ → Option (List CommitCluster)
unfolding cap_clusters
cluster_commits [] max_clusters = some []
cluster_commits (c ∷ cs) max_clusters =
    let merged = merged_groups time_window (sort_by (by_key date_of) (c ∷ cs)) in
    map_some (map build_cluster) (cap_clusters (length merged) (max 1 (to_nat max_clusters)) merged)
