-- ===== src/Git/Onboard.antt =====
-- `onboard_git_prepare` and `save_watermark`. `extract` walks the history with git; `id` and `now` are
-- what the new watermark's uuid4 and `utc_now()` give.
use openchronicle_mcp.Base.{
  at_end, ℕ, suc, Bool, false, not, ◌&&◌, ◌||◌, Option, none, some, List, [], ◌∷◌, ◌++◌, String,
  leb, if◌then◌else◌, length, drop, codes, ℤ,
}
use openchronicle_mcp.Domain.{Result, other_failure, DateTime, MemoryItem, watermark_source}
use openchronicle_mcp.Store.Conn.{Action, pure, lift, or_raise, ◌>>=◌, ◌>>◌}
use openchronicle_mcp.Store.Memory.{add_memory, delete_memory, list_memory_by_source}
use openchronicle_mcp.Git.Commits.{GitCommit, filter_commits}
use openchronicle_mcp.Git.Cluster.{CommitCluster, cluster_commits}

pub record ExtractedHistory : Type 0 where
  pub commits : List GitCommit
  pub branch : String
  pub head : String
  pub watermark_unreachable : Bool

abbrev no_history : ExtractedHistory
no_history = record { commits = []; branch = ""; head = ""; watermark_unreachable = false }

pub data Outcome : Type 0 where
  prepared up_to_date exists empty : Outcome

pub record OnboardPrepared : Type 0 where
  pub status : Outcome
  pub history : ExtractedHistory
  pub filtered : List GitCommit
  pub clusters : List CommitCluster
  pub watermark_before : Option String
  pub existing_count : ℕ

-- The dataclass's defaults.
abbrev pub with_status : Outcome → OnboardPrepared
with_status status = record {
  status = status;
  history = no_history;
  filtered = [];
  clusters = [];
  watermark_before = none;
  existing_count = 0;
}

abbrev is_hex : ℕ → Bool
is_hex c = (leb 48 c && leb c 57) || (leb 65 c && leb c 70) || (leb 97 c && leb c 102)

abbrev hex_run : List ℕ → ℕ
hex_run [] = 0
hex_run (c ∷ cs) = if is_hex c then suc (hex_run cs) else 0

-- `_WATERMARK_HASH_RE`: 7 to 64 hexadecimal digits, and then the end or a last newline.
unfoldable pub looks_like_hash : String → Bool
looks_like_hash text =
    let n = hex_run (codes text) in leb 7 n && leb n 64 && at_end (drop n (codes text))

abbrev pub git_source : String
git_source = "git-onboard"

-- The content of the newest watermark, if it looks like a hash.
unfoldable pub usable_watermark : List MemoryItem → Option String
usable_watermark [] = none
usable_watermark (m ∷ ms) = if looks_like_hash m.content then some m.content else none

unfoldable pub delete_all : List MemoryItem → Action (Unit {0})
delete_all [] = pure tt
delete_all (m ∷ ms) = delete_memory m.id >> delete_all ms

abbrev pub watermark_item : String → DateTime → String → String → MemoryItem
watermark_item id now project_id latest_hash = record {
  id = id;
  content = latest_hash;
  tags = watermark_source ∷ [];
  created_at = now;
  pinned = false;
  project_id = some project_id;
  source = watermark_source;
  updated_at = none;
}

unfoldable pub save_watermark : String → DateTime → String → String → Action (Unit {0})
save_watermark id now project_id latest_hash = do
  existing ← list_memory_by_source watermark_source (some project_id)
  delete_all existing
  add_memory (watermark_item id now project_id latest_hash)

-- `incremental`.
abbrev pub incremental : OnboardPrepared → Bool
incremental p = elim p.watermark_before [
  | none ↦ false
  | some _ ↦ not p.history.watermark_unreachable
]

-- The walk found no commit.
abbrev pub nothing_new : Option String → ExtractedHistory → OnboardPrepared
nothing_new none history = record (with_status empty) { history = history }
nothing_new (some hash) history = record (with_status up_to_date) {
  history = history;
  watermark_before = some hash;
}

module _ (digit : ℕ → Bool) (id : String) (now : DateTime) (project_id : String)
    (max_clusters : ℤ) where
  -- After the walk.
  unfoldable pub conclude : Option String → ExtractedHistory → Action OnboardPrepared
  unfolding filter_commits
  conclude watermark_hash history = elim history.commits [
    | [] ↦ pure (nothing_new watermark_hash history)
    | newest ∷ older ↦ (do
      let filtered = filter_commits digit (newest ∷ older)
      clusters ← or_raise other_failure (cluster_commits filtered max_clusters)
      save_watermark id now project_id newest.hash
      pure (record {
        status = prepared;
        history = history;
        filtered = filtered;
        clusters = clusters;
        watermark_before = watermark_hash;
        existing_count = 0;
      }))
  ]

  module _ (extract : Option String → Result ExtractedHistory) where
    abbrev pub walk_from : Option String → Action OnboardPrepared
    walk_from watermark_hash = lift (extract watermark_hash) >>= conclude watermark_hash

    -- `elif existing and not watermark_hash`, and otherwise the walk.
    abbrev pub unforced : List MemoryItem → Option String → Action OnboardPrepared
    unforced (m ∷ ms) none = pure (record (with_status exists) { existing_count = length (m ∷ ms) })
    unforced existing watermark_hash = walk_from watermark_hash

    unfoldable pub onboard_git_prepare : Bool → Action OnboardPrepared
    onboard_git_prepare force = do
      existing ← list_memory_by_source git_source (some project_id)
      watermark_items ← list_memory_by_source watermark_source (some project_id)
      if force
          then (delete_all (existing ++ watermark_items) >> walk_from none)
          else unforced existing (usable_watermark watermark_items)
