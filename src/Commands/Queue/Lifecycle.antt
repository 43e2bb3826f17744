-- ===== src/Commands/Queue/Lifecycle.antt =====
-- The life of a command: its end is final, and its lease keeps it from other workers.
use sonarr.Common.{ℕ, ◌≤◌, ◌<◌, true, List, [], ◌∷◌, ◌≡◌, refl, arith, All}
use sonarr.Commands.Queue.{
  Table, Commit, committed, rolled_back, unreported, is_finished, new_row, mark_running,
  completed_row, failed_row, refreshed_row, requeued_row, is_expired, Call, enqueues, step, run,
}
use sonarr.Commands.Queue.Rows.{Rising}
use sonarr.Commands.Queue.Steps.{IsStable, step-All, step-rolled_back, step-unreported}
use sonarr.Commands.Queue.Invariant.{step-Rising}

-- The counter never falls.
call-next_id-le : (now : ℕ) (t : Table) (c : Call) → t.next_id ≤ (step committed now t c).next_id
unfolding step
call-next_id-le now t (enqueues name body priority trigger key) = omega arith
call-next_id-le now t c = ground arith

pub step-next_id-le :
    (commit : Commit) (now : ℕ) (t : Table) (c : Call) → t.next_id ≤ (step commit now t c).next_id
step-next_id-le committed now t c = call-next_id-le now t c
step-next_id-le rolled_back now t c = rw (step-rolled_back now t c) (omega arith)
step-next_id-le unreported now t c = rw (step-unreported now t c) (call-next_id-le now t c)

pub run-next_id-le : (t : Table) (cs : List (Commit × ℕ × Call)) → t.next_id ≤ (run t cs).next_id
unfolding run
run-next_id-le t [] = omega arith
run-next_id-le t ((commit, now, c) ∷ cs) =
    omega (arith, step-next_id-le commit now t c, run-next_id-le (step commit now t c) cs)

-- An id that has been given out, and whose row, if it is still there, has ended.
abbrev pub IsOver : ℕ → Table → Type 0
IsOver id t = (id < t.next_id) × All (λ r. r.id ≡ id → is_finished r.status ≡ true) t.rows

IsOver-IsStable :
    (id : ℕ) (t : Table) (now : ℕ) (c : Call)
    → id < t.next_id
    → IsStable (λ r. r.id ≡ id → is_finished r.status ≡ true) t now c
unfolding new_row mark_running completed_row failed_row refreshed_row requeued_row is_expired
IsOver-IsStable id t now c h = record {
  fresh = λ name body priority trigger key e. absurd (omega arith);
  taken = λ r worker lease on p e. ground (arith, p e);
  finished = λ r duration result message p e. refl;
  broken = λ r duration exception message p e. refl;
  refreshed = λ i lease r ce ie p e. ground arith;
  requeued = λ r x p e. ground (arith, p e);
}

step-IsOver :
    (id : ℕ) (commit : Commit) (now : ℕ) (t : Table) (c : Call)
    → Rising 0 t.next_id t.rows
    → IsOver id t
    → IsOver id (step commit now t c)
step-IsOver id commit now t c rising h = (
  omega (arith, step-next_id-le commit now t c),
  step-All _ t now rising commit c (IsOver-IsStable id t now c h.0) h.1,
)

-- A command that has completed or failed never runs again: through any history of calls its row
-- stays ended or is deleted, and its id is not given to another command.
pub run-IsOver :
    (id : ℕ) (t : Table) (cs : List (Commit × ℕ × Call))
    → Rising 0 t.next_id t.rows
    → IsOver id t
    → IsOver id (run t cs)
unfolding run
run-IsOver id t [] rising h = h
run-IsOver id t ((commit, now, c) ∷ cs) rising h =
    run-IsOver id (step commit now t c) cs (step-Rising commit now t c rising)
      (step-IsOver id commit now t c rising h)
