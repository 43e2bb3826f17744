-- ===== src/Commands/Queue.antt =====
-- internal/commands/queue_sqlite.go with the statements of db/queries/sqlite/commands.sql that it
-- runs. The table is the list of its rows in the order of their ids.
pub mod Rows
pub mod Claiming
pub mod Steps
pub mod Invariant
pub mod Lifecycle
pub mod Leases
pub mod Draining
pub mod Counting
use sonarr.Common.{
  ℕ, zero, suc, ◌+◌, ◌==◌, ltb, leb, Bool, true, false, ◌&&◌, ◌||◌, List, [], ◌∷◌, ◌++◌, Option,
  none, some, Text, codes, text_eq, if◌then◌else◌, find,
}
use sonarr.Common.Sort.{slice_stable}
use sonarr.Commands.Command.{Command, Status, queued, running, completed, failed, Trigger}

-- `next_id` is the AUTOINCREMENT counter.
pub record Table : Type 0 where
  pub rows : List Command
  pub next_id : ℕ

-- How a write ends: committed, rolled back, or committed after the caller's context was cancelled,
-- so that the caller is given an error.
pub data Commit : Type 0 where
  committed rolled_back unreported : Commit

-- `pool.Write`: the new table, and the callback's value unless an error is returned.
abbrev pub write {ℓ} : {A : Type ℓ} → Commit → (Table → Table × A) → Table → Table × Option A
write committed f t = let (t', a) = f t in (t', some a)
write rolled_back f t = (t, none)
write unreported f t = ((f t).0, none)

abbrev pub is_queued : Status → Bool
is_queued queued = true
is_queued _ = false

abbrev pub is_running : Status → Bool
is_running running = true
is_running _ = false

abbrev pub is_active : Status → Bool
is_active s = is_queued s || is_running s

-- `UPDATE commands SET ... WHERE id = ?`.
unfoldable pub update_row : ℕ → (Command → Command) → List Command → List Command
update_row id f [] = []
update_row id f (r ∷ rs) = (if r.id == id then f r else r) ∷ update_row id f rs

-- `SELECT * FROM commands WHERE id = ?`.
abbrev pub get_row : ℕ → List Command → Option Command
get_row id = find (λ r. r.id == id)

-- EnqueueCommand.
unfoldable pub new_row : ℕ → Text → Text → ℕ → Trigger → Text → ℕ → Command
new_row id name body priority trigger dedup_key now = record {
  id = id;
  name = name;
  body = body;
  priority = priority;
  status = queued;
  queued_at = now;
  started_at = none;
  ended_at = none;
  duration_ms = none;
  exception = [];
  trigger = trigger;
  message = [];
  result = codes "{}";
  worker_id = [];
  lease_until = none;
  dedup_key = dedup_key;
}

insert_row : Text → Text → ℕ → Trigger → Text → ℕ → Table → Table × Command
unfolding new_row
insert_row name body priority trigger dedup_key now t =
    let row = new_row t.next_id name body priority trigger dedup_key now in
    (record t { rows = t.rows ++ row ∷ []; next_id = suc t.next_id }, row)

unfoldable pub enqueue :
    Commit → Text → Text → ℕ → Trigger → Text → ℕ → Table → Table × Option Command
unfolding insert_row
enqueue commit name body priority trigger dedup_key now =
    write commit (insert_row name body priority trigger dedup_key now)

-- `ORDER BY priority ASC, queued_at ASC`.
unfoldable pub sooner : Command → Command → Bool
sooner a b = ltb a.priority b.priority || (a.priority == b.priority && ltb a.queued_at b.queued_at)

best : Command → Option Command → Option Command
best r none = some r
best r (some b) = if sooner b r then some b else some r

-- SelectNextQueuedCommand: the first of the queued rows in that order, the lowest id among equals.
unfoldable pub select_next : List Command → Option Command
unfolding best
select_next [] = none
select_next (r ∷ rs) = let rest = select_next rs in if is_queued r.status then best r rest else rest

-- MarkCommandRunning.
unfoldable pub mark_running : Text → ℕ → ℕ → Command → Command
mark_running worker lease_until now r = record r {
  status = running;
  worker_id = worker;
  started_at = some now;
  lease_until = some lease_until;
}

claim_found : Text → ℕ → ℕ → Table → Option Command → Table × Option Command
unfolding update_row mark_running
claim_found worker lease now t none = (t, none)
claim_found worker lease now t (some r) =
    let rows = update_row r.id (mark_running worker (now + lease) now) t.rows in
    (record t { rows = rows }, get_row r.id rows)

claim_next : Text → ℕ → ℕ → Table → Table × Option Command
unfolding claim_found
claim_next worker lease now t = claim_found worker lease now t (select_next t.rows)

-- The value is absent on an error, and `some none` where nothing is queued.
unfoldable pub claim : Commit → Text → ℕ → ℕ → Table → Table × Option (Option Command)
unfolding claim_next
claim commit worker lease now = write commit (claim_next worker lease now)

abbrev pub update : ℕ → (Command → Command) → Table → Table × Unit {0}
update id f t = (record t { rows = update_row id f t.rows }, tt)

-- CompleteCommand and FailCommand.
unfoldable pub completed_row : ℕ → Text → Text → ℕ → Command → Command
completed_row duration result message now r = record r {
  status = completed;
  ended_at = some now;
  duration_ms = some duration;
  result = result;
  message = message;
}

unfoldable pub failed_row : ℕ → Text → Text → ℕ → Command → Command
failed_row duration exception message now r = record r {
  status = failed;
  ended_at = some now;
  duration_ms = some duration;
  exception = exception;
  message = message;
}

unfoldable pub complete : Commit → ℕ → ℕ → Text → Text → ℕ → Table → Table × Option (Unit {0})
unfolding completed_row
complete commit id duration result message now =
    write commit (update id (completed_row duration result message now))

unfoldable pub fail : Commit → ℕ → ℕ → Text → Text → ℕ → Table → Table × Option (Unit {0})
unfolding failed_row
fail commit id duration exception message now =
    write commit (update id (failed_row duration exception message now))

-- RefreshLease: only a running row is refreshed.
unfoldable pub refreshed_row : ℕ → Command → Command
refreshed_row lease_until r =
    if is_running r.status then record r { lease_until = some lease_until } else r

unfoldable pub refresh_lease : Commit → ℕ → ℕ → ℕ → Table → Table × Option (Unit {0})
unfolding refreshed_row
refresh_lease commit id lease now = write commit (update id (refreshed_row (now + lease)))

-- `lease_until < datetime('now')`, which a NULL never satisfies.
before : Option ℕ → ℕ → Bool
before none now = false
before (some t) now = ltb t now

unfoldable pub is_expired : ℕ → Command → Bool
unfolding before
is_expired now r = is_running r.status && before r.lease_until now

-- SweepExpiredLeases, with the number of rows that it changes.
unfoldable pub requeued_row : Command → Command
requeued_row r = record r { status = queued; worker_id = []; started_at = none; lease_until = none }

unfoldable pub sweep_rows : ℕ → List Command → List Command × ℕ
unfolding requeued_row
sweep_rows now [] = ([], 0)
sweep_rows now (r ∷ rs) =
    let (swept, n) = sweep_rows now rs in
    if is_expired now r then (requeued_row r ∷ swept, suc n) else (r ∷ swept, n)

sweep_table : ℕ → Table → Table × ℕ
unfolding sweep_rows
sweep_table now t = (record t { rows = (sweep_rows now t.rows).0 }, (sweep_rows now t.rows).1)

unfoldable pub sweep_expired_leases : Commit → ℕ → Table → Table × Option ℕ
unfolding sweep_table
sweep_expired_leases commit now = write commit (sweep_table now)

-- FindDuplicate: a read, `none` where no active row has the key.
unfoldable pub find_duplicate : Text → Table → Option Command
find_duplicate key t = find (λ r. text_eq r.dedup_key key && is_active r.status) t.rows

-- DeleteOldCompleted, with the number of rows deleted.
abbrev pub is_finished : Status → Bool
is_finished completed = true
is_finished failed = true
is_finished _ = false

unfoldable pub is_old : ℕ → Command → Bool
unfolding before
is_old cutoff r = is_finished r.status && before r.ended_at cutoff

unfoldable pub delete_rows : ℕ → List Command → List Command × ℕ
delete_rows cutoff [] = ([], 0)
delete_rows cutoff (r ∷ rs) =
    let (kept, n) = delete_rows cutoff rs in
    if is_old cutoff r then (kept, suc n) else (r ∷ kept, n)

delete_table : ℕ → Table → Table × ℕ
unfolding delete_rows
delete_table cutoff t =
    (record t { rows = (delete_rows cutoff t.rows).0 }, (delete_rows cutoff t.rows).1)

unfoldable pub delete_old_completed : Commit → ℕ → Table → Table × Option ℕ
unfolding delete_table
delete_old_completed commit cutoff = write commit (delete_table cutoff)

unfoldable pub get : ℕ → Table → Option Command
get id t = get_row id t.rows

-- `LIMIT n`, which is left out for a limit of 0.
take_rows : ℕ → List Command → List Command
take_rows zero rs = []
take_rows (suc n) [] = []
take_rows (suc n) (r ∷ rs) = r ∷ take_rows n rs

unfoldable pub list_recent : ℕ → Table → List Command
unfolding take_rows
list_recent limit t =
    let sorted = slice_stable (λ a b. ltb b.queued_at a.queued_at) t.rows in
    if limit == 0 then sorted else take_rows limit sorted

-- The calls that change the table, by anyone who holds the queue.
pub data Call : Type 0 where
  enqueues : Text → Text → ℕ → Trigger → Text → Call
  claims : Text → ℕ → Call
  completes : ℕ → ℕ → Text → Text → Call
  fails : ℕ → ℕ → Text → Text → Call
  refreshes : ℕ → ℕ → Call
  sweeps : Call
  deletes : ℕ → Call

unfoldable pub step : Commit → ℕ → Table → Call → Table
unfolding enqueue claim complete fail refresh_lease sweep_expired_leases delete_old_completed
step commit now t (enqueues name body priority trigger key) =
    (enqueue commit name body priority trigger key now t).0
step commit now t (claims worker lease) = (claim commit worker lease now t).0
step commit now t (completes id duration result message) =
    (complete commit id duration result message now t).0
step commit now t (fails id duration exception message) =
    (fail commit id duration exception message now t).0
step commit now t (refreshes id lease) = (refresh_lease commit id lease now t).0
step commit now t sweeps = (sweep_expired_leases commit now t).0
step commit now t (deletes cutoff) = (delete_old_completed commit cutoff t).0

-- A history: each call with its time and how its write ended.
unfoldable pub run : Table → List (Commit × ℕ × Call) → Table
run t [] = t
run t ((commit, now, c) ∷ cs) = run (step commit now t c) cs
