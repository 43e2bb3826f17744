-- ===== src/Scheduler.antt =====
-- internal/scheduler: scheduler.go over the task table of task_sqlite.go. Whether each database
-- call succeeds is given, task by task.
pub mod Tick
use sonarr.Common.{
  ℕ, ◌+◌, ◌==◌, leb, ltb, Bool, true, false, List, [], ◌∷◌, ◌++◌, Option, none, some, Text, text_eq,
  if◌then◌else◌, select,
}
use sonarr.Common.Sort.{slice_stable}
use sonarr.Commands.Command.{Command, scheduled, priority_normal}
use sonarr.Commands.Queue.{
  Table, Commit, committed, rolled_back, unreported, enqueue, find_duplicate, sweep_expired_leases,
}

pub record ScheduledTask : Type 0 where
  pub type_name : Text
  pub interval_secs : ℕ
  pub last_execution : Option ℕ
  pub next_execution : ℕ

pub record World : Type 0 where
  pub queue : Table
  pub tasks : List ScheduledTask

-- GetDueTasks: `WHERE next_execution <= now ORDER BY next_execution`.
unfoldable pub get_due_tasks : ℕ → List ScheduledTask → List ScheduledTask
get_due_tasks now tasks =
    slice_stable (λ a b. ltb a.next_execution b.next_execution)
      (select (λ t. leb t.next_execution now) tasks)

-- UpdateTaskExecution.
unfoldable pub update_execution : Text → ℕ → ℕ → List ScheduledTask → List ScheduledTask
update_execution name next now [] = []
update_execution name next now (t ∷ ts) =
    (if text_eq t.type_name name
      then record t { last_execution = some now; next_execution = next }
      else t)
    ∷ update_execution name next now ts

-- UpsertScheduledTask: a task that is there keeps its next execution.
unfoldable pub upsert : ScheduledTask → List ScheduledTask → List ScheduledTask
upsert task [] = task ∷ []
upsert task (t ∷ ts) =
    if text_eq t.type_name task.type_name
    then record t { interval_secs = task.interval_secs } ∷ ts
    else t ∷ upsert task ts

-- How the database calls for one task end.
pub record Database : Type 0 where
  pub finds : Bool
  pub enqueues : Commit
  pub updates : Bool

advance : Bool → ScheduledTask → ℕ → World → World
advance false task now w = w
advance true task now w = record w {
  tasks = update_execution task.type_name (now + task.interval_secs) now w.tasks;
}

-- The task advances only if the enqueue reported success.
enqueued : Option Command → Database → ScheduledTask → ℕ → World → World
unfolding advance
enqueued none db task now w = w
enqueued (some cmd) db task now w = advance db.updates task now w

enqueue_task : Database → ScheduledTask → ℕ → World → World
unfolding enqueued
enqueue_task db task now w =
    let (queue, got) =
      enqueue db.enqueues task.type_name [] priority_normal scheduled task.type_name now w.queue in
    enqueued got db task now (record w { queue = queue })

unless_found : Option Command → Database → ScheduledTask → ℕ → World → World
unfolding enqueue_task
unless_found (some cmd) db task now w = w
unless_found none db task now w = enqueue_task db task now w

unfoldable pub process_due_task : Database → ScheduledTask → ℕ → World → World
unfolding unless_found
process_due_task db task now w =
    if db.finds then unless_found (find_duplicate task.type_name w.queue) db task now w else w

unfoldable pub process_tasks : (Text → Database) → List ScheduledTask → ℕ → World → World
unfolding process_due_task
process_tasks db [] now w = w
process_tasks db (task ∷ tasks) now w =
    process_tasks db tasks now (process_due_task (db task.type_name) task now w)

-- `due` tells whether the tasks could be read; the sweep runs either way.
unfoldable pub tick : Bool → (Text → Database) → Commit → ℕ → World → World
unfolding process_tasks
tick due db swept now w =
    let w' = if due then process_tasks db (get_due_tasks now w.tasks) now w else w in
    record w' { queue = (sweep_expired_leases swept now w'.queue).0 }
