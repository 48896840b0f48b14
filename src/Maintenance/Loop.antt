-- ===== src/Maintenance/Loop.antt =====
-- MaintenanceLoop as its steps: asyncio runs one task at a time and switches only at an `await`, so
-- a step is what happens between two of them.
use openchronicle_mcp.Base.{
  ℕ, Bool, true, false, not, ◌&&◌, ◌||◌, List, [], ◌∷◌, ◌++◌, String, str_eq, if◌then◌else◌, any,
}
use openchronicle_mcp.Table.{modify}
use openchronicle_mcp.Maintenance.Jobs.{
  JobState, Ended, job_key, is_due, note_in_flight, begin_run, end_run,
}

-- A task of `_invoke`: created; holding its job's lock and waiting for the global one; holding both.
pub data Phase : Type 0 where
  spawned queued running : Phase

pub record Task : Type 0 where
  pub job : String
  pub phase : Phase

pub record Loop : Type 0 where
  pub jobs : List JobState
  pub tasks : List Task

abbrev pub is_spawned : Phase → Bool
is_spawned spawned = true
is_spawned _ = false

abbrev pub is_queued : Phase → Bool
is_queued queued = true
is_queued _ = false

abbrev pub is_running : Phase → Bool
is_running running = true
is_running _ = false

-- The job's own lock is taken before the global one.
abbrev pub holds_lock : String → Task → Bool
holds_lock name t = str_eq t.job name && not (is_spawned t.phase)

abbrev pub holds_global : Task → Bool
holds_global t = is_running t.phase

-- `job._lock.locked()` and `_global_lock.locked()`.
abbrev pub job_locked : String → List Task → Bool
job_locked name ts = any (holds_lock name) ts

abbrev pub global_locked : List Task → Bool
global_locked ts = any holds_global ts

abbrev pub spawn : String → List Task → List Task
spawn name ts = ts ++ record { job = name; phase = spawned } ∷ []

-- One turn of `_run`'s inner loop.
unfoldable pub tick_job : ℕ → JobState → List Task → JobState × List Task
tick_job now j ts =
    if not j.enabled
    then (j, ts)
    else if not (is_due j now)
    then (j, ts)
    else if job_locked j.name ts
    then (note_in_flight now j, ts)
    else (j, spawn j.name ts)

unfoldable pub tick_jobs : ℕ → List JobState → List Task → List JobState × List Task
tick_jobs now [] ts = ([], ts)
tick_jobs now (j ∷ js) ts =
    let (j', ts') = tick_job now j ts in let (js', ts'') = tick_jobs now js ts' in (j' ∷ js', ts'')

abbrev pub same_phase : Phase → Phase → Bool
same_phase spawned p = is_spawned p
same_phase queued p = is_queued p
same_phase running p = is_running p

abbrev pub is_task : String → Phase → Task → Bool
is_task name phase t = str_eq t.job name && same_phase phase t.phase

-- The first task of the job in one phase goes on to the next: asyncio's locks are fair.
abbrev pub advance : String → Phase → Phase → List Task → List Task
advance name from to [] = []
advance name from to (t ∷ ts) =
    if is_task name from t then record t { phase = to } ∷ ts else t ∷ advance name from to ts

abbrev pub remove : String → Phase → List Task → List Task
remove name phase [] = []
remove name phase (t ∷ ts) = if is_task name phase t then ts else t ∷ remove name phase ts

pub data Event : Type 0 where
  -- One iteration of `_run`.
  tick : ℕ → Event
  -- `run_once`.
  run_once : String → Event
  take_lock : String → Event
  take_global : ℕ → String → Event
  finish : ℕ → String → Ended → Event
  -- `stop` cancels a task that waits.
  drop_task : String → Phase → Event

abbrev pub change_job : String → (JobState → JobState) → Loop → List JobState
change_job name f l = modify job_key name f l.jobs

-- An event that is not possible in the state does nothing.
unfoldable pub step : Event → Loop → Loop
step (tick now) l = let (js, ts) = tick_jobs now l.jobs l.tasks in record { jobs = js; tasks = ts }
step (run_once name) l = record l { tasks = spawn name l.tasks }
step (take_lock name) l =
    if job_locked name l.tasks then l else record l { tasks = advance name spawned queued l.tasks }
step (take_global now name) l =
    if global_locked l.tasks || not (any (is_task name queued) l.tasks) then l else record {
      jobs = change_job name (begin_run now) l;
      tasks = advance name queued running l.tasks;
    }
step (finish now name ended) l =
    if any (is_task name running) l.tasks
    then record {
      jobs = change_job name (end_run now ended) l;
      tasks = remove name running l.tasks;
    }
    else l
step (drop_task name phase) l =
    if is_running phase then l else record l { tasks = remove name phase l.tasks }

unfoldable pub steps : List Event → Loop → Loop
steps [] l = l
steps (e ∷ es) l = steps es (step e l)
