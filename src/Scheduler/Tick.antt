-- ===== src/Scheduler/Tick.antt =====
-- The scheduler never has two active commands of one task.
use sonarr.Common.{
  ℕ, ◌≤◌, ◌<◌, Bool, true, false, List, [], ◌∷◌, Option, none, some, Text, ◌≡◌, ◌≢◌, refl, arith,
  In, subst, find, Option-cases, Bool-cases, inl, inr,
}
use sonarr.Commands.Command.{Command}
use sonarr.Commands.Queue.{Commit, rolled_back, find_duplicate}
use sonarr.Common.{In-select}
use sonarr.Common.Sort.{In-slice_stable}
use sonarr.Scheduler.{
  ScheduledTask, World, Database, advance, enqueued, enqueue_task, unless_found, process_due_task,
  process_tasks, get_due_tasks, tick,
}
use sonarr.Commands.Queue.Counting.{
  has_key, active_count, find-some, active_count-sweep, AddsFirst, enqueue_count, enqueue_active,
}

abbrev pub active : Text → World → ℕ
active key w = active_count key w.queue.rows

advance_queue :
    (b : Bool) (task : ScheduledTask) (now : ℕ) (w : World) → (advance b task now w).queue ≡ w.queue
unfolding advance
advance_queue false task now w = refl
advance_queue true task now w = refl

enqueued_queue :
    (got : Option Command) (db : Database) (task : ScheduledTask) (now : ℕ) (w : World)
    → (enqueued got db task now w).queue ≡ w.queue
unfolding enqueued
enqueued_queue none db task now w = refl
enqueued_queue (some cmd) db task now w = advance_queue db.updates task now w

process_count :
    (db : Database) (task : ScheduledTask) (now : ℕ) (w : World) (key : Text)
    → AddsFirst task.type_name key (active key w) (active key (process_due_task db task now w))
unfolding process_due_task enqueue_task
process_count db task now w key = elim (Bool-cases db.finds) [
  | inl on ↦ rw on (elim (Option-cases (find_duplicate task.type_name w.queue)) [
    | inl e ↦
        rw (e, unless_found)
          (rw enqueued_queue
            (enqueue_count db.enqueues task.type_name [] task.type_name key w.queue now e))
    | inr (c, e) ↦ rw (e, unless_found) (inl refl)
  ])
  | inr off ↦ rw off (inl refl)
]

-- Where the calls for a task succeed, it has an active command afterwards.
process_active :
    (db : Database) (task : ScheduledTask) (now : ℕ) (w : World)
    → db.finds ≡ true
    → db.enqueues ≢ rolled_back
    → 0 < active task.type_name (process_due_task db task now w)
unfolding process_due_task enqueue_task find_duplicate
process_active db task now w on h =
    rw on (elim (Option-cases (find (has_key task.type_name) w.queue.rows)) [
      | inl e ↦
          rw (e, unless_found)
            (rw enqueued_queue
              (enqueue_active db.enqueues task.type_name [] task.type_name w.queue now h))
      | inr (c, e) ↦ rw (e, unless_found) (find-some task.type_name w.queue.rows c e)
    ])

process_tasks_le :
    (db : Text → Database) (tasks : List ScheduledTask) (now : ℕ) (w : World) (key : Text)
    → (active key w ≤ active key (process_tasks db tasks now w))
      × (active key w ≤ 1 → active key (process_tasks db tasks now w) ≤ 1)
unfolding process_tasks
process_tasks_le db [] now w key = (omega arith, (λ h. h))
process_tasks_le db (task ∷ tasks) now w key =
    let w' : World = process_due_task (db task.type_name) task now w in
    let (up, one) = process_tasks_le db tasks now w' key in
    let added = process_count (db task.type_name) task now w key in
    (omega (arith, up, added), (λ h. one (omega (arith, added, h))))

process_tasks-active :
    (db : Text → Database) (tasks : List ScheduledTask) (now : ℕ) (w : World) (task : ScheduledTask)
    → In task tasks
    → (db task.type_name).finds ≡ true
    → (db task.type_name).enqueues ≢ rolled_back
    → 0 < active task.type_name (process_tasks db tasks now w)
unfolding process_tasks
process_tasks-active db [] now w task m on h = absurd m
process_tasks-active db (t ∷ tasks) now w task (inr m) on h =
    process_tasks-active db tasks now (process_due_task (db t.type_name) t now w) task m on h
process_tasks-active db (t ∷ tasks) now w task (inl e) on h =
    let w' : World = process_due_task (db t.type_name) t now w in
    let up = (process_tasks_le db tasks now w' task.type_name).0 in omega (arith, up, first)
  where
    first : 0 < active task.type_name (process_due_task (db t.type_name) t now w)
    first =
        subst
          (λ (x : ScheduledTask).
            0 < active task.type_name (process_due_task (db x.type_name) x now w))
          e (process_active (db task.type_name) task now w on h)

get_due_tasks-In :
    (now : ℕ) (task : ScheduledTask) (tasks : List ScheduledTask)
    → In task tasks
    → task.next_execution ≤ now
    → In task (get_due_tasks now tasks)
unfolding get_due_tasks
get_due_tasks-In now task tasks m due =
    In-slice_stable _ task _ (In-select _ task tasks (ground arith) m)

tick_count :
    (db : Text → Database) (swept : Commit) (now : ℕ) (w : World) (key : Text)
    → active key (tick true db swept now w)
      ≡ active key (process_tasks db (get_due_tasks now w.tasks) now w)
unfolding tick
tick_count db swept now w key =
    active_count-sweep key swept now (process_tasks db (get_due_tasks now w.tasks) now w).queue

-- A tick never makes a second active command for a key: one that has at most one active command
-- before has at most one after, whichever of the database calls fail.
pub tick-at_most_one :
    (due : Bool) (db : Text → Database) (swept : Commit) (now : ℕ) (w : World) (key : Text)
    → active key w ≤ 1
    → active key (tick due db swept now w) ≤ 1
unfolding tick
tick-at_most_one false db swept now w key h = rw (active_count-sweep key swept now w.queue) h
tick-at_most_one true db swept now w key h =
    rw (active_count-sweep key swept now (process_tasks db (get_due_tasks now w.tasks) now w).queue)
      ((process_tasks_le db (get_due_tasks now w.tasks) now w key).1 h)

-- After a tick every due task whose duplicates could be read and whose enqueue was not rolled back
-- has exactly one active command, if it had at most one before.
pub tick-exactly_one :
    (db : Text → Database) (swept : Commit) (now : ℕ) (w : World) (task : ScheduledTask)
    → In task w.tasks
    → task.next_execution ≤ now
    → (db task.type_name).finds ≡ true
    → (db task.type_name).enqueues ≢ rolled_back
    → active task.type_name w ≤ 1
    → active task.type_name (tick true db swept now w) ≡ 1
tick-exactly_one db swept now w task m due on h one =
    let tasks = get_due_tasks now w.tasks in
    let here = get_due_tasks-In now task w.tasks m due in
    let some_active = process_tasks-active db tasks now w task here on h in
    let at_most = (process_tasks_le db tasks now w task.type_name).1 one in
    rw (tick_count db swept now w task.type_name) (omega (arith, some_active, at_most))
