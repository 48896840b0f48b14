-- ===== src/Maintenance/Counters.antt =====
-- The counters of the jobs, and what a tick does to a job whose run is in flight.
use openchronicle_mcp.Base.{
  ℕ, ◌+◌, ◌≤◌, ◌≡◌, refl, ap, ◌∙◌, Bool, true, false, not, ◌||◌, none, some, List, [], ◌∷◌, String,
  arith, str_eq, ltb, leb, if◌then◌else◌, any, All, inl, inr, Bool-cases,
}
use openchronicle_mcp.Table.{modify}
use openchronicle_mcp.Maintenance.Jobs.{
  JobState, job_key, interval_us, note_in_flight, Ended, returned, skipped, cancelled, no_handler,
  raised, begin_run, end_run,
}
use openchronicle_mcp.Maintenance.Loop.{
  Task, Loop, Event, tick, run_once, take_lock, take_global, finish, drop_task, is_task, queued,
  running, is_running, job_locked, global_locked, tick_job, tick_jobs, step, steps,
}

-- No run is counted as both, and a counted one is counted in the total.
abbrev pub Tallies : JobState → Type 0
Tallies j = j.runs_ok + j.runs_failed ≤ j.runs_total

end_run-Tallies : (now : ℕ) (e : Ended) (j : JobState) → Tallies j → Tallies (end_run now e j)
unfolding end_run
end_run-Tallies now returned j h = omega arith
end_run-Tallies now skipped j h = omega arith
end_run-Tallies now cancelled j h = omega arith
end_run-Tallies now no_handler j h = omega arith
end_run-Tallies now (raised m) j h = omega arith

note_in_flight-Tallies : (now : ℕ) (j : JobState) → Tallies j → Tallies (note_in_flight now j)
unfolding note_in_flight
note_in_flight-Tallies now j h = ground arith

modify-Tallies :
    (name : String) (f : JobState → JobState) (js : List JobState)
    → ((j : JobState) → Tallies j → Tallies (f j))
    → All Tallies js
    → All Tallies (modify job_key name f js)
modify-Tallies name f [] k h = tt
modify-Tallies name f (j ∷ js) k h = elim (Bool-cases (str_eq j.name name)) [
  | inl same ↦ rw same (k j h.0, modify-Tallies name f js k h.1)
  | inr other ↦ rw other (h.0, modify-Tallies name f js k h.1)
]

tick_job-Tallies :
    (now : ℕ) (j : JobState) (ts : List Task) → Tallies j → Tallies (tick_job now j ts).0
unfolding tick_job
tick_job-Tallies now j ts h = ground (arith, note_in_flight-Tallies now j h)

tick_jobs-Tallies :
    (now : ℕ) (js : List JobState) (ts : List Task)
    → All Tallies js
    → All Tallies (tick_jobs now js ts).0
unfolding tick_jobs
tick_jobs-Tallies now [] ts h = tt
tick_jobs-Tallies now (j ∷ js) ts h =
    (tick_job-Tallies now j ts h.0, tick_jobs-Tallies now js (tick_job now j ts).1 h.1)

step-Tallies : (e : Event) (l : Loop) → All Tallies l.jobs → All Tallies (step e l).jobs
unfolding step
step-Tallies (tick now) l h = tick_jobs-Tallies now l.jobs l.tasks h
step-Tallies (run_once name) l h = h
step-Tallies (take_lock name) l h = elim (Bool-cases (job_locked name l.tasks)) [
  | inl locked ↦ rw locked h
  | inr free ↦ rw free h
]
step-Tallies (take_global now name) l h =
    elim (Bool-cases (global_locked l.tasks || not (any (is_task name queued) l.tasks))) [
      | inl locked ↦ rw locked h
      | inr free ↦ rw free (modify-Tallies name (begin_run now) l.jobs (λ j k. k) h)
    ]
step-Tallies (finish now name ended) l h = elim (Bool-cases (any (is_task name running) l.tasks)) [
  | inl there ↦
      rw there (modify-Tallies name (end_run now ended) l.jobs (end_run-Tallies now ended) h)
  | inr gone ↦ rw gone h
]
step-Tallies (drop_task name phase) l h = elim (Bool-cases (is_running phase)) [
  | inl run ↦ rw run h
  | inr wait ↦ rw wait h
]

-- In every run of the loop, from counters where it holds: the successful and the failed runs of a
-- job together are at most its total.
pub steps-Tallies :
    (es : List Event) (l : Loop) → All Tallies l.jobs → All Tallies (steps es l).jobs
unfolding steps
steps-Tallies [] l h = h
steps-Tallies (e ∷ es) l h = steps-Tallies es (step e l) (step-Tallies e l h)

-- The due ticks that find a run in flight, one after another.
unfoldable pub noted : List ℕ → JobState → JobState
noted [] j = j
noted (now ∷ later) j = noted later (note_in_flight now j)

abbrev overlapped : JobState → JobState
overlapped j = record j {
  overlap_logged = true;
  runs_skipped_overlap = j.runs_skipped_overlap + 1;
  last_outcome = some "skipped_overlap";
}

abbrev overlap_counted : JobState → ℕ → ℕ → Bool
overlap_counted j t now = j.overlap_logged || ltb now (t + interval_us j)

note_in_flight-started :
    (now : ℕ) (j : JobState) (t : ℕ)
    → j.started_at ≡ some t
    → note_in_flight now j ≡ (if overlap_counted j t now then j else overlapped j)
unfolding note_in_flight
note_in_flight-started now j t s = ground arith

note_in_flight-queued :
    (now : ℕ) (j : JobState)
    → j.started_at ≡ none
    → note_in_flight now j ≡ record j { queued_logged = true }
unfolding note_in_flight
note_in_flight-queued now j s = ground arith

note_kept :
    (now : ℕ) (j : JobState) (t : ℕ)
    → j.started_at ≡ some t
    → overlap_counted j t now ≡ true
    → note_in_flight now j ≡ j
note_kept now j t s c = note_in_flight-started now j t s ∙ ap (λ b. if b then j else overlapped j) c

note_counted :
    (now : ℕ) (j : JobState) (t : ℕ)
    → j.started_at ≡ some t
    → overlap_counted j t now ≡ false
    → note_in_flight now j ≡ overlapped j
note_counted now j t s c =
    note_in_flight-started now j t s ∙ ap (λ b. if b then j else overlapped j) c

noted-logged :
    (times : List ℕ) (j : JobState) (t : ℕ)
    → j.started_at ≡ some t
    → j.overlap_logged ≡ true
    → noted times j ≡ j
unfolding noted
noted-logged [] j t s o = refl
noted-logged (now ∷ later) j t s o =
    ap (noted later) (note_kept now j t s (ground arith)) ∙ noted-logged later j t s o

-- While one run is in progress, however many ticks find its job due, the job counts one overlap if
-- one of them comes when the interval since the run's start has passed, and none otherwise.
pub noted-overlap :
    (times : List ℕ) (j : JobState) (t : ℕ)
    → j.started_at ≡ some t
    → j.overlap_logged ≡ false
    → (noted times j).runs_skipped_overlap
      ≡ j.runs_skipped_overlap + (if any (λ now. leb (t + interval_us j) now) times then 1 else 0)
unfolding noted
noted-overlap [] j t s o = omega arith
noted-overlap (now ∷ later) j t s o = elim (Bool-cases (ltb now (t + interval_us j))) [
  | inl early ↦
      let not_yet : leb (t + interval_us j) now ≡ false = ground arith in
      ap (λ k. (noted later k).runs_skipped_overlap) (note_kept now j t s (ground arith))
      ∙ rw not_yet (noted-overlap later j t s o)
  | inr passed ↦
      let reached : leb (t + interval_us j) now ≡ true = ground arith in
      ap (λ k. (noted later k).runs_skipped_overlap) (note_counted now j t s (ground arith))
      ∙ ap (λ k. k.runs_skipped_overlap) (noted-logged later (overlapped j) t s refl)
      ∙ rw reached refl
]
