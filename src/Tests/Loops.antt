-- ===== src/Tests/Loops.antt =====
-- Uses of the maintenance loop's theorems.
use openchronicle_mcp.Base.{◌≡◌, refl, true, false, none, some, List, [], ◌∷◌, String, arith, All}
use openchronicle_mcp.Domain.{Fields}
use openchronicle_mcp.Domain.Values.{float, str, arr, obj, nil, cons, end, field}
use openchronicle_mcp.Maintenance.Jobs.{JobState, returned}
use openchronicle_mcp.Maintenance.Loop.{
  Loop, Event, tick, run_once, take_lock, take_global, finish, steps,
}
use openchronicle_mcp.Maintenance.Exclusion.{IsExclusive, steps-IsExclusive}
use openchronicle_mcp.Maintenance.Counters.{Tallies, noted, steps-Tallies, noted-overlap}
use openchronicle_mcp.Maintenance.Loaded.{Loaded, load_jobs-Loaded}
use openchronicle_mcp.Maintenance.Config.{IntOf, overflow, config_jobs, load_jobs, default_jobs}

abbrev job : String → JobState
job name = record {
  name = name;
  interval_seconds = 60;
  enabled = true;
  last_run_at = none;
  last_success_at = none;
  last_outcome = none;
  last_error = none;
  runs_total = 0;
  runs_ok = 0;
  runs_failed = 0;
  runs_skipped_overlap = 0;
  started_at = none;
  queued_logged = false;
  overlap_logged = false;
}

abbrev loop : Loop
loop = record { jobs = job "backup" ∷ job "vacuum" ∷ []; tasks = [] }

abbrev events : List Event
events =
    tick 0
    ∷ take_lock "backup"
    ∷ take_lock "vacuum"
    ∷ take_global 1 "backup"
    ∷ take_global 2 "vacuum"
    ∷ run_once "backup"
    ∷ take_lock "backup"
    ∷ finish 3 "backup" returned
    ∷ take_global 4 "vacuum"
    ∷ []

steps-IsExclusive_example : IsExclusive (steps events loop).tasks
steps-IsExclusive_example =
    steps-IsExclusive events loop (record { one_runs = omega arith; one_each = λ k. omega arith })

steps-Tallies_example : All Tallies (steps events loop).jobs
steps-Tallies_example = steps-Tallies events loop (omega arith, (omega arith, tt))

abbrev started : JobState
started = record (job "backup") { started_at = some 5 }

noted-overlap_example : (noted (10 ∷ 70_000_000 ∷ 80_000_000 ∷ []) started).runs_skipped_overlap ≡ 1
noted-overlap_example = noted-overlap (10 ∷ 70_000_000 ∷ 80_000_000 ∷ []) started 5 refl refl

abbrev int_of : IntOf
int_of = record { of_float = λ b. overflow; of_text = λ s. none }

abbrev config : Fields
config =
    field "maintenance"
      (obj (
        field "jobs"
          (arr (
            cons
              (obj (
                field "name" (str "db_backup")
                  (field "interval_seconds" (float 9_218_868_437_227_405_312) end)))
              nil))
          end))
      end

load_jobs-Loaded_example :
    Loaded int_of (config_jobs (some config)) default_jobs (load_jobs int_of (some config))
load_jobs-Loaded_example = load_jobs-Loaded int_of (some config)
