-- ===== src/Maintenance/Config.antt =====
-- `load_jobs`: the entries of core.json merged onto the defaults by name.
use openchronicle_mcp.Base.{
  ℕ, Bool, true, false, Option, none, some, List, [], ◌∷◌, String, str_eq, ◌==◌, if◌then◌else◌,
}
use openchronicle_mcp.Domain.{Result, ok, err, overflow_error, Json, Items, Fields}
use openchronicle_mcp.Domain.Values.{get, null, bool, int, neg_int, float, str, arr, obj, nil, cons}
use openchronicle_mcp.Import.Validate.{truthy}
use openchronicle_mcp.Maintenance.Jobs.{JobState}

pub record Default : Type 0 where
  pub name : String
  pub interval_seconds : ℕ
  pub enabled : Bool

-- _DEFAULT_JOBS.
abbrev pub default_jobs : List Default
default_jobs =
    record { name = "db_vacuum"; interval_seconds = 604_800; enabled = true }
    ∷ record { name = "db_integrity_check"; interval_seconds = 604_800; enabled = true }
    ∷ record { name = "embedding_backfill"; interval_seconds = 21_600; enabled = true }
    ∷ record { name = "db_backup"; interval_seconds = 86_400; enabled = true }
    ∷ record { name = "git_onboard_resync"; interval_seconds = 3_600; enabled = false }
    ∷ record { name = "cloud_backup"; interval_seconds = 86_400; enabled = true }
    ∷ []

-- What `int(value)` does: it gives a number (one that is not positive is 0 here), raises TypeError or
-- ValueError, or raises OverflowError.
pub data Converted : Type 0 where
  number : ℕ → Converted
  refused overflow : Converted

-- `int` of a float, which overflows at an infinity, and of a text, `none` at a ValueError.
pub record IntOf : Type 0 where
  pub of_float : ℕ → Converted
  pub of_text : String → Option ℕ

abbrev pub parsed : Option ℕ → Converted
parsed none = refused
parsed (some n) = number n

abbrev pub as_int : IntOf → Json → Converted
as_int f null = refused
as_int f (bool b) = refused
as_int f (int n) = number n
as_int f (neg_int n) = number 0
as_int f (float b) = f.of_float b
as_int f (str s) = parsed (f.of_text s)
as_int f (arr vs) = refused
as_int f (obj fs) = refused

abbrev pub or_hour : ℕ → ℕ
or_hour n = if n == 0 then 3_600 else n

-- A bad interval, or one that is not positive, becomes 3600; an OverflowError is not caught.
abbrev pub checked : Converted → Result ℕ
checked (number n) = ok (or_hour n)
checked refused = ok 3_600
checked overflow = err overflow_error

abbrev pub interval_of : IntOf → Default → Option Json → Result ℕ
interval_of f d none = checked (number d.interval_seconds)
interval_of f d (some v) = checked (as_int f v)

abbrev pub enabled_of : Default → Option Json → Bool
enabled_of d none = d.enabled
enabled_of d (some v) = truthy v

-- The fields of an entry that names the job.
abbrev pub names : String → Json → Option Fields
names name (obj fs) = elim (get "name" fs) [
  | none ↦ none
  | some v ↦ elim v [ str s ↦ if str_eq s name then some fs else none | _ ↦ none ]
]
names name _ = none

-- `overrides.get(name, {})`: the last entry with the name wins.
abbrev later_or : Option Fields → Option Fields → Option Fields
later_or earlier none = earlier
later_or earlier (some fs) = some fs

unfoldable pub override : String → Items → Option Fields
override name nil = none
override name (cons v vs) = later_or (names name v) (override name vs)

abbrev pub fields_get : String → Option Fields → Option Json
fields_get key none = none
fields_get key (some fs) = get key fs

-- `fc.get("jobs")` as a list; anything else overrides nothing.
abbrev pub jobs_of : Option Json → Items
jobs_of (some (arr vs)) = vs
jobs_of _ = nil

abbrev pub config_jobs : Option Fields → Items
config_jobs none = nil
config_jobs (some fs) = elim (get "maintenance" fs) [
  | none ↦ nil
  | some v ↦ elim v [ obj m ↦ jobs_of (get "jobs" m) | _ ↦ nil ]
]

abbrev pub with_interval : Default → Bool → ℕ → JobState
with_interval d enabled interval = record {
  name = d.name;
  interval_seconds = interval;
  enabled = enabled;
  last_run_at = none;
  last_success_at = none;
  last_outcome = none;
  last_error = none;
  runs_total = 0;
  runs_ok = 0;
  runs_failed = 0;
  runs_skipped_overlap = 0;
  started_at = none;
  queued_logged = false;
  overlap_logged = false;
}

abbrev pub entry_of : Items → Default → String → Option Json
entry_of entries d key = fields_get key (override d.name entries)

-- The loop over the defaults, whose `states` come after those of the first ones.
abbrev pub then_rest : Default → Bool → Result ℕ → Result (List JobState) → Result (List JobState)
then_rest d enabled (err e) rest = err e
then_rest d enabled (ok interval) (err e) = err e
then_rest d enabled (ok interval) (ok states) = ok (with_interval d enabled interval ∷ states)

unfoldable pub load_from : IntOf → Items → List Default → Result (List JobState)
load_from f entries [] = ok []
load_from f entries (d ∷ ds) =
    then_rest d (enabled_of d (entry_of entries d "enabled"))
      (interval_of f d (entry_of entries d "interval_seconds")) (load_from f entries ds)

unfoldable pub load_jobs : IntOf → Option Fields → Result (List JobState)
unfolding load_from
load_jobs f config = load_from f (config_jobs config) default_jobs
