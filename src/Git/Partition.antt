-- ===== src/Git/Partition.antt =====
-- `cluster_commits` as a whole.
use openchronicle_mcp.Base.{
  ℕ, suc, ◌≤◌, ◌≡◌, refl, ap, ◌∙◌, some, List, [], ◌∷◌, ◌++◌, map, length, max, arith, All, Perm, ℤ,
  to_nat, sort_by, by_key, sort_by-Perm, sort_by-IsAscending, length-sort_by, IsAscending,
}
use mathlib.Core.List.Perm
use openchronicle_mcp.Git.Commits.{GitCommit, date_of}
use openchronicle_mcp.Git.Cluster.{
  Groups, time_groups, merge_overlapping, merged_groups, build_cluster, CommitCluster,
  cluster_commits, time_window,
}
use openchronicle_mcp.Git.Groups.{
  concat, IsNonempty, time_groups-concat, time_groups-IsNonempty, merge_overlapping-concat,
  merge_overlapping-IsNonempty,
}
use openchronicle_mcp.Git.Cap.{cap_clusters-Capped}

-- The groups before the cap: every commit, in order, in groups that are not empty.
record Grouped (cs : List GitCommit) (gs : Groups) : Type 0 where
  commits : concat gs ≡ cs
  nonempty : All IsNonempty gs

regrouped :
    (cs : List GitCommit) (gs : Groups)
    → Grouped cs gs
    → 1 ≤ length cs
    → Grouped cs (elim gs as (λ x. Groups) [ [] ↦ [] | g ∷ rest ↦ merge_overlapping g rest ])
regrouped cs [] v h = v
regrouped cs (g ∷ gs) v h = record {
  commits = merge_overlapping-concat g gs ∙ v.commits;
  nonempty = merge_overlapping-IsNonempty g gs v.nonempty.0 v.nonempty.1;
}

merged_groups-Grouped : (window : ℕ) (cs : List GitCommit) → Grouped cs (merged_groups window cs)
unfolding merged_groups
merged_groups-Grouped window [] = record { commits = refl; nonempty = tt }
merged_groups-Grouped window (c ∷ cs) =
    regrouped (c ∷ cs) (time_groups window (c ∷ []) c cs)
      (record {
        commits = time_groups-concat window (c ∷ []) c cs;
        nonempty = time_groups-IsNonempty window (c ∷ []) c cs (omega arith);
      })
      (omega arith)

-- All commits of the clusters.
abbrev pub commits_of : List CommitCluster → List GitCommit
commits_of [] = []
commits_of (k ∷ ks) = k.commits ++ commits_of ks

-- In order of time, and at least one.
abbrev pub IsOrdered : CommitCluster → Type 0
IsOrdered k = IsAscending date_of k.commits × IsNonempty k.commits

commits_of-build : (gs : Groups) → Perm (commits_of (map build_cluster gs)) (concat gs)
unfolding build_cluster
commits_of-build [] = Perm.refl _
commits_of-build (g ∷ gs) = Perm.append (sort_by-Perm (by_key date_of) g) (commits_of-build gs)

build-IsOrdered : (gs : Groups) → All IsNonempty gs → All IsOrdered (map build_cluster gs)
unfolding build_cluster
build-IsOrdered [] a = tt
build-IsOrdered (g ∷ gs) a = (
  (sort_by-IsAscending date_of g, omega (arith, length-sort_by (by_key date_of) g, a.0)),
  build-IsOrdered gs a.1,
)

length-build : (gs : Groups) → length (map build_cluster gs) ≡ length gs
length-build [] = refl
length-build (g ∷ gs) = ap suc (length-build gs)

-- What `cluster_commits` returns for the commits.
pub record Clustering (commits : List GitCommit) (limit : ℕ) (clusters : List CommitCluster)
    : Type 0 where
  pub partition : Perm (commits_of clusters) commits
  pub ordered : All IsOrdered clusters
  pub bounded : length clusters ≤ limit

-- The clustering returns for every list of commits and every cap, negative ones included: each
-- commit is in exactly one cluster as often as in the list, no cluster is empty, each is in order of
-- time, and there are at most max(1, cap) of them.
pub cluster_commits-Clustering :
    (commits : List GitCommit) (max_clusters : ℤ)
    → (clusters : List CommitCluster) × (cluster_commits commits max_clusters ≡ some clusters)
      × Clustering commits (max 1 (to_nat max_clusters)) clusters
unfolding cluster_commits
cluster_commits-Clustering [] max_clusters =
    ([], refl, record { partition = Perm.refl _; ordered = tt; bounded = omega arith })
cluster_commits-Clustering (c ∷ cs) max_clusters =
    let limit = max 1 (to_nat max_clusters) in
    let sorted = sort_by (by_key date_of) (c ∷ cs) in
    let v = merged_groups-Grouped time_window sorted in
    let merged = merged_groups time_window sorted in
    let k = cap_clusters-Capped (length merged) limit merged (omega arith) (omega arith) in
    (
      map build_cluster k.groups,
      rw (k.returned) refl,
      record {
        partition =
            Perm.trans (commits_of-build k.groups)
              (Perm.trans k.same_commits (rw (v.commits) (sort_by-Perm (by_key date_of) (c ∷ cs))));
        ordered = build-IsOrdered k.groups (k.nonempty v.nonempty);
        bounded = omega (arith, length-build k.groups, k.number);
      },
    )
