-- ===== src/Git/Prepare.antt =====
-- `onboard_git_prepare` on every path.
use openchronicle_mcp.Base.{
  ℕ, ◌≤◌, ◌≡◌, refl, sym, Bool, true, false, not, Option, none, some, List, [], ◌∷◌, ◌++◌, map,
  String, arith, length, ℤ,
}
use mathlib.Core.Path.{subst}
use mathlib.Core.List.{map-append}
use openchronicle_mcp.Table.{has, IsUnique, IsUnique-filter, find-filter-none}
use openchronicle_mcp.Domain.{Error, Result, ok, err, aware, watermark_source}
use openchronicle_mcp.Domain.Time.{InRange}
use openchronicle_mcp.Store.Conn.{MemoryRow, Db, Store, memory_key, project_key}
use openchronicle_mcp.Store.Projects.{delete_memories}
use openchronicle_mcp.Store.Memory.{row_to_memory_item, list_memory_by_source}
use openchronicle_mcp.Store.Transaction.{idle}
use openchronicle_mcp.Git.Commits.{GitCommit, filter_commits}
use openchronicle_mcp.Git.Cluster.{CommitCluster, cluster_commits}
use openchronicle_mcp.Git.Partition.{cluster_commits-Clustering}
use openchronicle_mcp.Git.Onboard.{
  ExtractedHistory, Outcome, OnboardPrepared, git_source, usable_watermark, conclude, nothing_new,
  onboard_git_prepare, walk_from, with_status,
}
use openchronicle_mcp.Git.Sources.{rows_from, of_onboarding, both-Selects, delete_all-Selects}
use openchronicle_mcp.Git.Resume.{marked, save_watermark-marked}

-- `existing and not watermark_hash`.
abbrev blocks : List MemoryRow → Option String → Bool
blocks [] point = false
blocks (r ∷ rows) none = true
blocks (r ∷ rows) (some hash) = false

module _ (project_id : String) where
  abbrev pub watermark_of : Db → Option String
  watermark_of d =
      usable_watermark (map row_to_memory_item (rows_from watermark_source project_id d))

  -- Where the walk starts, and the tables then: a forced run forgets everything first.
  abbrev pub start : Bool → Db → Option String
  start true d = none
  start false d = watermark_of d

  abbrev pub cleared : Bool → Db → Db
  cleared true d = delete_memories (of_onboarding project_id) d
  cleared false d = d

  -- Memories of a run without a resume point stop an unforced run.
  abbrev pub refuses : Bool → Db → Bool
  refuses true d = false
  refuses false d = blocks (rows_from git_source project_id d) (watermark_of d)

abbrev pub walked :
    ExtractedHistory → List GitCommit → List CommitCluster → Option String → OnboardPrepared
walked history filtered clusters before = record {
  status = Outcome.prepared;
  history = history;
  filtered = filtered;
  clusters = clusters;
  watermark_before = before;
  existing_count = 0;
}

module _ (digit : ℕ → Bool) (id : String) (t : ℕ) (project_id : String) (max_clusters : ℤ)
    (extract : Option String → Result ExtractedHistory) where
  -- A walk from `point` on the tables `d`: it raises, finds nothing, or marks the newest commit.
  pub data Walks (point : Option String) (d : Db) (r : Result OnboardPrepared × Store)
      : Type 0 where
    failed : (e : Error) (c : ℕ) → extract point ≡ err e → r ≡ (err e, idle d 0 c) → Walks point d r
    unchanged :
        (history : ExtractedHistory) (c : ℕ)
        → extract point ≡ ok history
        → history.commits ≡ []
        → r ≡ (ok (nothing_new point history), idle d 0 c)
        → Walks point d r
    moved :
        (history : ExtractedHistory) (newest : GitCommit) (older : List GitCommit)
        (clusters : List CommitCluster) (c : ℕ)
        → extract point ≡ ok history
        → history.commits ≡ newest ∷ older
        → cluster_commits (filter_commits digit (newest ∷ older)) max_clusters ≡ some clusters
        → r ≡ (
          ok (walked history (filter_commits digit (newest ∷ older)) clusters point),
          idle (marked id t project_id newest.hash d) 0 c,
        )
        → Walks point d r

  abbrev run : Bool → Store → Result OnboardPrepared × Store
  run = onboard_git_prepare digit id (aware t) project_id max_clusters extract

  abbrev walk : Option String → Store → Result OnboardPrepared × Store
  walk = walk_from digit id (aware t) project_id max_clusters extract

  module _ (in_range : InRange t) where
    walk_from-Walks :
        (point : Option String) (d : Db) (b : ℕ)
        → b ≤ 3
        → IsUnique memory_key d.memories
        → has memory_key id d.memories ≡ false
        → has project_key project_id d.projects ≡ true
        → Walks point d (walk point (idle d 0 b))
    unfolding conclude
    walk_from-Walks point d b h u new met = go (extract point) refl
      where
        after :
            (history : ExtractedHistory) (commits : List GitCommit)
            → extract point ≡ ok history
            → history.commits ≡ commits
            → Walks point d (walk point (idle d 0 b))
        after history [] e k = unchanged history b e k (rw e (rw k refl))
        after history (newest ∷ older) e k =
            let (clusters, q, v) =
              cluster_commits-Clustering (filter_commits digit (newest ∷ older)) max_clusters in
            let (c, l, m) =
              save_watermark-marked id t in_range project_id newest.hash d b h u new met in
            moved history newest older clusters c e k q (rw e (rw k (rw q (rw m refl))))

        go :
            (r : Result ExtractedHistory)
            → extract point ≡ r
            → Walks point d (walk point (idle d 0 b))
        go (err e) q = failed e b q (rw q refl)
        go (ok history) q = after history history.commits q refl

  -- A run: refused, with the number of memories found, or a walk from `start` after `cleared`.
  pub data Onboards (force : Bool) (d : Db) (b : ℕ) (r : Result OnboardPrepared × Store)
      : Type 0 where
    refused :
        refuses project_id force d ≡ true
        → r ≡ (
          ok (record (with_status Outcome.exists) {
            existing_count = length (map row_to_memory_item (rows_from git_source project_id d));
          }),
          idle d 0 b,
        )
        → Onboards force d b r
    ran :
        refuses project_id force d ≡ false
        → Walks (start project_id force d) (cleared project_id force d) r
        → Onboards force d b r

  -- What deletions leave out stays out.
  new-cleared :
      (d : Db)
      → has memory_key id d.memories ≡ false
      → has memory_key id (cleared project_id true d).memories ≡ false
  new-cleared d new =
      ground
        (arith, find-filter-none memory_key (λ r. not (of_onboarding project_id r)) id d.memories)

  module _ (in_range : InRange t) where
    forced-Onboards :
        (d : Db) (b : ℕ)
        → b ≤ 3
        → IsUnique memory_key d.memories
        → has memory_key id d.memories ≡ false
        → has project_key project_id d.projects ≡ true
        → Onboards true d b (run true (idle d 0 b))
    unfolding onboard_git_prepare list_memory_by_source
    forced-Onboards d b h u new met =
        let (c, l, e) =
          delete_all-Selects (of_onboarding project_id)
            (rows_from git_source project_id d ++ rows_from watermark_source project_id d) d b h
            (both-Selects d u project_id) in
        rw
          (
            sym (
                map-append row_to_memory_item (rows_from git_source project_id d)
                  (rows_from watermark_source project_id d)),
            e,
          )
          (ran refl (
            walk_from-Walks in_range none (cleared project_id true d) c l
              (IsUnique-filter memory_key (λ r. not (of_onboarding project_id r)) d.memories u)
              (new-cleared d new) met))

    unforced-Onboards :
        (d : Db) (b : ℕ)
        → b ≤ 3
        → IsUnique memory_key d.memories
        → has memory_key id d.memories ≡ false
        → has project_key project_id d.projects ≡ true
        → Onboards false d b (run false (idle d 0 b))
    unfolding onboard_git_prepare list_memory_by_source
    unforced-Onboards d b h u new met =
        go (rows_from git_source project_id d) refl (watermark_of project_id d) refl
      where
        go :
            (git : List MemoryRow)
            → rows_from git_source project_id d ≡ git
            → (point : Option String) → watermark_of project_id d ≡ point
            → Onboards false d b (run false (idle d 0 b))
        go [] q point e =
            rw q (
              ran (rw q refl)
                (walk_from-Walks in_range (watermark_of project_id d) d b h u new met))
        go (r ∷ git) q none e = rw (q, e) (refused (rw (q, e) refl) (rw q refl))
        go (r ∷ git) q (some hash) e =
            rw (q, e)
              (ran (rw (q, e) refl) (
                subst (λ p. Walks p d (walk (some hash) (idle d 0 b))) (sym e)
                  (walk_from-Walks in_range (some hash) d b h u new met)))

    -- For every table with unique ids, a known project and a new id, and with the lock granted within
    -- the four attempts: an unforced run over memories of the project without a usable watermark is
    -- refused and changes nothing. Every other run walks from the usable watermark or, forced, from
    -- none, and a forced run has deleted the project's git memories and watermarks before the walk,
    -- even if the walk then raises. A walk that raises or finds nothing changes no table further; one
    -- that finds commits returns their clusters and leaves one watermark, the newest commit's hash,
    -- and all other rows as they were.
    pub onboard_git_prepare-Onboards :
        (force : Bool) (d : Db) (b : ℕ)
        → b ≤ 3
        → IsUnique memory_key d.memories
        → has memory_key id d.memories ≡ false
        → has project_key project_id d.projects ≡ true
        → Onboards force d b (
            onboard_git_prepare digit id
              (aware t)
              project_id
              max_clusters
              extract
              force
              (idle d 0 b))
    onboard_git_prepare-Onboards true = forced-Onboards
    onboard_git_prepare-Onboards false = unforced-Onboards
