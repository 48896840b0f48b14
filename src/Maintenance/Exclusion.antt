-- ===== src/Maintenance/Exclusion.antt =====
-- The locks of MaintenanceLoop: which tasks hold them.
use openchronicle_mcp.Base.{
  ℕ, ◌+◌, ◌≤◌, ◌≡◌, refl, Bool, false, not, ◌||◌, List, [], ◌∷◌, String, arith, str_eq, eq_iff,
  if◌then◌else◌, any, count, count-append, inl, inr, Bool-cases,
}
use openchronicle_mcp.Maintenance.Jobs.{JobState, is_due}
use openchronicle_mcp.Maintenance.Loop.{
  Phase, spawned, queued, running, Task, Loop, Event, tick, run_once, take_lock, take_global,
  finish, drop_task, is_running, holds_lock, holds_global, job_locked, global_locked, spawn,
  is_task, advance, remove, tick_job, tick_jobs, step, steps,
}

pub record IsExclusive (ts : List Task) : Type 0 where
  pub one_runs : count holds_global ts ≤ 1
  pub one_each : (name : String) → count (holds_lock name) ts ≤ 1

count-unlocked : {A : Type 0} (p : A → Bool) (xs : List A) → any p xs ≡ false → count p xs ≡ 0
count-unlocked p [] h = refl
count-unlocked p (x ∷ xs) h = ground (arith, count-unlocked p xs)

spawn-IsExclusive : (name : String) (ts : List Task) → IsExclusive ts → IsExclusive (spawn name ts)
spawn-IsExclusive name ts x = record {
  one_runs = ground (
    arith,
    count-append holds_global ts (record { job = name; phase = spawned } ∷ []),
    x.one_runs,
  );
  one_each = λ k. ground (
    arith,
    count-append (holds_lock k) ts (record { job = name; phase = spawned } ∷ []),
    x.one_each k,
  );
}

tick_job-IsExclusive :
    (now : ℕ) (j : JobState) (ts : List Task) → IsExclusive ts → IsExclusive (tick_job now j ts).1
unfolding tick_job
tick_job-IsExclusive now j ts x = elim (Bool-cases (not j.enabled)) [
  | inl off ↦ rw off x
  | inr on ↦ rw on (elim (Bool-cases (not (is_due j now))) [
    | inl early ↦ rw early x
    | inr due ↦ rw due (elim (Bool-cases (job_locked j.name ts)) [
      | inl locked ↦ rw locked x
      | inr free ↦ rw free (spawn-IsExclusive j.name ts x)
    ])
  ])
]

tick_jobs-IsExclusive :
    (now : ℕ) (js : List JobState) (ts : List Task)
    → IsExclusive ts
    → IsExclusive (tick_jobs now js ts).1
unfolding tick_jobs
tick_jobs-IsExclusive now [] ts x = x
tick_jobs-IsExclusive now (j ∷ js) ts x =
    tick_jobs-IsExclusive now js (tick_job now j ts).1 (tick_job-IsExclusive now j ts x)

-- Taking the job's lock.
count-queued_global :
    (name : String) (ts : List Task)
    → count holds_global (advance name spawned queued ts) ≡ count holds_global ts
count-queued_global name [] = refl
count-queued_global name (t ∷ ts) = ground (arith, count-queued_global name ts)

count-queued_lock :
    (name k : String) (ts : List Task)
    → count (holds_lock k) (advance name spawned queued ts)
      ≤ count (holds_lock k) ts + (if str_eq name k then 1 else 0)
count-queued_lock name k [] = omega arith
count-queued_lock name k (t ∷ ts) =
    ground (arith, eq_iff t.job name, eq_iff t.job k, eq_iff name k, count-queued_lock name k ts)

count-running_global :
    (name : String) (ts : List Task)
    → count holds_global (advance name queued running ts) ≤ count holds_global ts + 1
count-running_global name [] = omega arith
count-running_global name (t ∷ ts) = ground (arith, count-running_global name ts)

count-running_lock :
    (name k : String) (ts : List Task)
    → count (holds_lock k) (advance name queued running ts) ≡ count (holds_lock k) ts
count-running_lock name k [] = refl
count-running_lock name k (t ∷ ts) = ground (arith, count-running_lock name k ts)

count-remove_le :
    (p : Task → Bool) (name : String) (phase : Phase) (ts : List Task)
    → count p (remove name phase ts) ≤ count p ts
count-remove_le p name phase [] = omega arith
count-remove_le p name phase (t ∷ ts) = ground (arith, count-remove_le p name phase ts)

take_lock-IsExclusive :
    (name : String) (ts : List Task)
    → job_locked name ts ≡ false
    → IsExclusive ts
    → IsExclusive (advance name spawned queued ts)
take_lock-IsExclusive name ts free x = record {
  one_runs = omega (arith, count-queued_global name ts, x.one_runs);
  one_each = λ k. elim (Bool-cases (str_eq name k)) [
    | inl same ↦
        let none_held = count-unlocked (holds_lock name) ts free in
        let e : name ≡ k = ground (arith, eq_iff name k) in
        let held : count (holds_lock k) ts ≡ 0 = ground (arith, e, none_held) in
        ground (arith, count-queued_lock name k ts, held)
    | inr other ↦ ground (arith, count-queued_lock name k ts, x.one_each k)
  ];
}

take_global-IsExclusive :
    (name : String) (ts : List Task)
    → global_locked ts ≡ false
    → IsExclusive ts
    → IsExclusive (advance name queued running ts)
take_global-IsExclusive name ts free x = record {
  one_runs = omega (arith, count-running_global name ts, count-unlocked holds_global ts free);
  one_each = λ k. omega (arith, count-running_lock name k ts, x.one_each k);
}

remove-IsExclusive :
    (name : String) (phase : Phase) (ts : List Task)
    → IsExclusive ts
    → IsExclusive (remove name phase ts)
remove-IsExclusive name phase ts x = record {
  one_runs = omega (arith, count-remove_le holds_global name phase ts, x.one_runs);
  one_each = λ k. omega (arith, count-remove_le (holds_lock k) name phase ts, x.one_each k);
}

step-IsExclusive : (e : Event) (l : Loop) → IsExclusive l.tasks → IsExclusive (step e l).tasks
unfolding step
step-IsExclusive (tick now) l x = tick_jobs-IsExclusive now l.jobs l.tasks x
step-IsExclusive (run_once name) l x = spawn-IsExclusive name l.tasks x
step-IsExclusive (take_lock name) l x = elim (Bool-cases (job_locked name l.tasks)) [
  | inl locked ↦ rw locked x
  | inr free ↦ rw free (take_lock-IsExclusive name l.tasks free x)
]
step-IsExclusive (take_global now name) l x =
    elim (Bool-cases (global_locked l.tasks || not (any (is_task name queued) l.tasks))) [
      | inl locked ↦ rw locked x
      | inr free ↦ rw free (take_global-IsExclusive name l.tasks (ground arith) x)
    ]
step-IsExclusive (finish now name ended) l x =
    elim (Bool-cases (any (is_task name running) l.tasks)) [
      | inl there ↦ rw there (remove-IsExclusive name running l.tasks x)
      | inr gone ↦ rw gone x
    ]
step-IsExclusive (drop_task name phase) l x = elim (Bool-cases (is_running phase)) [
  | inl run ↦ rw run x
  | inr wait ↦ rw wait (remove-IsExclusive name phase l.tasks x)
]

-- Whatever the ticks, calls, endings and cancellations, and in whatever order the waiting tasks go
-- on: from a loop where it holds, at most one task ever runs a handler, and no job has two tasks
-- past its lock.
pub steps-IsExclusive :
    (es : List Event) (l : Loop) → IsExclusive l.tasks → IsExclusive (steps es l).tasks
unfolding steps
steps-IsExclusive [] l x = x
steps-IsExclusive (e ∷ es) l x = steps-IsExclusive es (step e l) (step-IsExclusive e l x)
