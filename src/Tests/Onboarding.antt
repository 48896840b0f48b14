-- ===== src/Tests/Onboarding.antt =====
-- Uses of the onboarding theorems: three commits, and a store with one run's memories.
use openchronicle_mcp.Base.{
  ℕ, ◌≡◌, refl, Bool, true, false, Option, none, some, List, [], ◌∷◌, String, arith, negsuc, pos,
  leb, ◌&&◌, if◌then◌else◌, length,
}
use openchronicle_mcp.Domain.{Result, ok, err, other_failure, aware, watermark_source}
use openchronicle_mcp.Domain.Values.{obj, end}
use openchronicle_mcp.Store.Conn.{MemoryRow, Db, Store}
use openchronicle_mcp.Store.Memory.{list_memory_by_source}
use openchronicle_mcp.Store.Transaction.{idle}
use openchronicle_mcp.Git.Commits.{GitCommit, is_merge}
use openchronicle_mcp.Git.Cluster.{
  CommitCluster, cluster_commits, merged_groups, overlaps, merge_smallest, build_cluster,
}
use openchronicle_mcp.Git.Partition.{Clustering, cluster_commits-Clustering}
use openchronicle_mcp.Git.Onboard.{
  ExtractedHistory, onboard_git_prepare, save_watermark, watermark_item, looks_like_hash,
}
use openchronicle_mcp.Git.Resume.{save_watermark-list_memory_by_source}
use openchronicle_mcp.Git.Prepare.{Onboards, onboard_git_prepare-Onboards}
use openchronicle_mcp.Git.Guarded.{onboard_git_prepare_guarded}

abbrev digit : ℕ → Bool
digit c = leb 48 c && leb c 57

abbrev commit : String → ℕ → String → GitCommit
commit hash date file = record {
  hash = hash;
  author = "a";
  date = date;
  subject = "feat: x";
  body = "";
  files_changed = file ∷ [];
  insertions = 1;
  deletions = 0;
}

abbrev walked_commits : List GitCommit
walked_commits =
    commit "cccccccc" 900_000_000_000 "z"
    ∷ commit "bbbbbbbb" 500_000_000_001 "y"
    ∷ commit "aaaaaaaa" 100_000_000_000 "x"
    ∷ []

sizes : List CommitCluster → List ℕ
sizes [] = []
sizes (k ∷ ks) = length k.commits ∷ sizes ks

sizes? : Option (List CommitCluster) → Option (List ℕ)
sizes? none = none
sizes? (some ks) = some (sizes ks)

-- Three groups apart in time; a cap of two merges the first, which is a smallest, into the second.
clustered : sizes? (cluster_commits walked_commits (pos 2)) ≡ some (2 ∷ 1 ∷ [])
unfolding cluster_commits merged_groups overlaps merge_smallest build_cluster sizes? sizes
clustered = refl

merge_dropped : is_merge (97 ∷ []) ≡ false
unfolding is_merge
merge_dropped = refl

newline_accepted : looks_like_hash "abcdef0\n" ≡ true
unfolding looks_like_hash
newline_accepted = refl

cluster_commits-Clustering_example :
    (clusters : List CommitCluster) × (cluster_commits walked_commits (negsuc 3) ≡ some clusters)
    × Clustering walked_commits 1 clusters
cluster_commits-Clustering_example = cluster_commits-Clustering walked_commits (negsuc 3)

abbrev memory : String → String → String → MemoryRow
memory id source content = record {
  id = id;
  content = content;
  tags = [];
  created_at = 90_000_000_000;
  pinned = false;
  project_id = some "p1";
  source = source;
  updated_at = none;
}

abbrev tables : Db
tables = record {
  projects = record { id = "p1"; name = "n"; metadata = obj end; created_at = 90_000_000_000 } ∷ [];
  memories =
      memory "m1" "git-onboard" "summary"
      ∷ memory "m2" "git-onboard-watermark" "aaaaaaaa"
      ∷ memory "m3" "user" "note"
      ∷ [];
  embeddings = [];
}

abbrev history : ExtractedHistory
history = record {
  commits = walked_commits;
  branch = "main";
  head = "cccccccc";
  watermark_unreachable = false;
}

abbrev extract : Option String → Result ExtractedHistory
extract point = ok history

-- Its answer differs at the texts that are no hash.
careless : Option String → Result ExtractedHistory
careless none = ok history
careless (some text) = if looks_like_hash text then ok history else err other_failure

careless-none : extract none ≡ careless none
unfolding careless
careless-none = refl

careless-hash :
    (hash : String) → looks_like_hash hash ≡ true → extract (some hash) ≡ careless (some hash)
unfolding careless
careless-hash hash h = rw h refl

onboard_git_prepare_guarded_example :
    onboard_git_prepare digit "m9"
      (aware 90_000_000_001)
      "p1"
      (pos 15)
      extract
      false
      (idle tables 0 2)
    ≡ onboard_git_prepare digit "m9"
        (aware 90_000_000_001)
        "p1"
        (pos 15)
        careless
        false
        (idle tables 0 2)
onboard_git_prepare_guarded_example =
    onboard_git_prepare_guarded extract careless careless-none careless-hash digit "m9"
      (aware 90_000_000_001) "p1" (pos 15) false (idle tables 0 2)

onboard_git_prepare-Onboards_example :
    Onboards digit "m9" 90_000_000_001 "p1" (pos 15) extract false tables 2 (
      onboard_git_prepare digit "m9"
        (aware 90_000_000_001)
        "p1"
        (pos 15)
        extract
        false
        (idle tables 0 2))
onboard_git_prepare-Onboards_example =
    onboard_git_prepare-Onboards digit "m9" 90_000_000_001 "p1" (pos 15) extract
      (omega arith, omega arith) false tables 2 (omega arith) (refl, (refl, (refl, tt))) refl refl

save_watermark-list_memory_by_source_example :
    (s : Store) × (save_watermark "m9" (aware 90_000_000_001) "p1" "cccccccc" (idle tables 0 1)
      ≡ (ok tt, s))
    × (list_memory_by_source watermark_source (some "p1") s
        ≡ (ok (watermark_item "m9" (aware 90_000_000_001) "p1" "cccccccc" ∷ []), s))
save_watermark-list_memory_by_source_example =
    save_watermark-list_memory_by_source "m9" 90_000_000_001 (omega arith, omega arith) "p1"
      "cccccccc" tables 1 (omega arith) (refl, (refl, (refl, tt))) refl refl
