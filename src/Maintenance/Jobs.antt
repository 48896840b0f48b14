-- ===== src/Maintenance/Jobs.antt =====
-- JobState and what a run does to it. Instants are microseconds; the log lines and metrics are left
-- out.
use openchronicle_mcp.Base.{
  ℕ, ◌+◌, ◌*◌, Bool, true, false, ◌||◌, Option, none, some, String, leb, ltb, if◌then◌else◌,
}

pub record JobState : Type 0 where
  pub name : String
  pub interval_seconds : ℕ
  pub enabled : Bool
  pub last_run_at : Option ℕ
  pub last_success_at : Option ℕ
  pub last_outcome : Option String
  pub last_error : Option String
  pub runs_total : ℕ
  pub runs_ok : ℕ
  pub runs_failed : ℕ
  pub runs_skipped_overlap : ℕ
  pub started_at : Option ℕ
  pub queued_logged : Bool
  pub overlap_logged : Bool

abbrev pub job_key : JobState → String
job_key j = j.name

abbrev pub interval_us : JobState → ℕ
interval_us j = j.interval_seconds * 1_000_000

-- `_is_due`: `now - last_run_at >= interval`, which a clock behind `last_run_at` does not satisfy.
abbrev pub is_due : JobState → ℕ → Bool
is_due j now = elim j.last_run_at [ none ↦ true | some t ↦ leb (t + interval_us j) now ]

-- `_note_in_flight`: an overlap counts once per run, and only from the run's next start on.
unfoldable pub note_in_flight : ℕ → JobState → JobState
note_in_flight now j = elim j.started_at [
  | none ↦ record j { queued_logged = true }
  | some t ↦ if j.overlap_logged || ltb now (t + interval_us j) then j else record j {
    overlap_logged = true;
    runs_skipped_overlap = j.runs_skipped_overlap + 1;
    last_outcome = some "skipped_overlap";
  }
]

-- How a handler ends; `no_handler` is a job without one.
pub data Ended : Type 0 where
  returned skipped cancelled no_handler : Ended
  raised : String → Ended

-- The start of `_run_slot`, with both locks held.
abbrev pub begin_run : ℕ → JobState → JobState
begin_run now j = record j { started_at = some now; queued_logged = false }

-- The `finally` arm of `_run_slot`.
abbrev close_run : JobState → JobState
close_run j = record j { started_at = none; overlap_logged = false }

-- `_invoke` from the handler's end on.
unfoldable pub end_run : ℕ → Ended → JobState → JobState
end_run now returned j = close_run (record j {
  last_error = none;
  last_outcome = some "ok";
  runs_ok = j.runs_ok + 1;
  runs_total = j.runs_total + 1;
  last_run_at = some now;
  last_success_at = some now;
})
end_run now skipped j = close_run (record j {
  last_error = none;
  last_outcome = some "skipped";
  runs_total = j.runs_total + 1;
  last_run_at = some now;
})
end_run now (raised message) j = close_run (record j {
  last_outcome = some "failed";
  last_error = some message;
  runs_failed = j.runs_failed + 1;
  runs_total = j.runs_total + 1;
  last_run_at = some now;
})
end_run now cancelled j =
    close_run (record j { runs_total = j.runs_total + 1; last_run_at = some now })
end_run now no_handler j = close_run (record j {
  last_outcome = some "failed";
  last_error = some "no handler registered";
  runs_failed = j.runs_failed + 1;
  runs_total = j.runs_total + 1;
  last_run_at = some now;
})
