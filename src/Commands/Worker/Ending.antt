-- ===== src/Commands/Worker/Ending.antt =====
-- How a command that a worker holds comes to its end.
use sonarr.Common.{ℕ, ◌<◌, Bool, true, false, [], ◌∷◌, ◌++◌, Text, codes, ◌≡◌, refl, arith, ◌∙◌}
use mathlib.Core.List.{append_assoc}
use sonarr.Commands.Command.{Command, Event, command_started, command_completed, command_failed}
use sonarr.Commands.Queue.{
  Table, committed, completes, fails, is_finished, completed_row, failed_row, step, run,
}
use sonarr.Commands.Queue.Lifecycle.{IsOver, run-next_id-le}
use sonarr.Commands.Queue.Leases.{updated_rows}
use sonarr.Commands.Worker.{
  Outcome, returned, errored, panicked, World, Round, finish, handle, dispatch,
}

-- The event that reports the end of a command.
abbrev pub outcome_event : Round → Command → Outcome → Event
outcome_event round cmd returned = command_completed cmd.id cmd.name round.duration
outcome_event round cmd (errored e) = command_failed cmd.id cmd.name e
outcome_event round cmd (panicked e) = command_failed cmd.id cmd.name e

abbrev pub end_event : Bool → Round → Command → Event
end_event true round cmd = outcome_event round cmd round.outcome
end_event false round cmd = command_failed cmd.id cmd.name (codes "no handler registered")

-- Completing or failing a row ends it.
completed-IsOver :
    (id duration now : ℕ) (result message : Text) (t : Table)
    → id < t.next_id
    → IsOver id (step committed now t (completes id duration result message))
unfolding step completed_row
completed-IsOver id duration now result message t h =
    (h, updated_rows (λ r. is_finished r.status ≡ true) id _ t.rows (λ x. refl))

failed-IsOver :
    (id duration now : ℕ) (exception message : Text) (t : Table)
    → id < t.next_id
    → IsOver id (step committed now t (fails id duration exception message))
unfolding step failed_row
failed-IsOver id duration now exception message t h =
    (h, updated_rows (λ r. is_finished r.status ≡ true) id _ t.rows (λ x. refl))

finish-IsOver :
    (outcome : Outcome) (round : Round) (cmd : Command) (w : World)
    → round.end_commit ≡ committed
    → cmd.id < w.table.next_id
    → IsOver cmd.id (finish outcome round cmd w).table
unfolding finish step
finish-IsOver returned round cmd w e h = rw e (completed-IsOver cmd.id _ _ _ _ w.table h)
finish-IsOver (errored x) round cmd w e h = rw e (failed-IsOver cmd.id _ _ _ _ w.table h)
finish-IsOver (panicked x) round cmd w e h = rw e (failed-IsOver cmd.id _ _ _ _ w.table h)

finish_published :
    (outcome : Outcome) (round : Round) (cmd : Command) (w : World)
    → (finish outcome round cmd w).published ≡ w.published ++ outcome_event round cmd outcome ∷ []
unfolding finish
finish_published returned round cmd w = refl
finish_published (errored x) round cmd w = refl
finish_published (panicked x) round cmd w = refl

handle-IsOver :
    (known : Bool) (round : Round) (cmd : Command) (w : World)
    → round.end_commit ≡ committed
    → cmd.id < w.table.next_id
    → IsOver cmd.id (handle known round cmd w).table
      × ((handle known round cmd w).published ≡ w.published ++ end_event known round cmd ∷ [])
unfolding handle step
handle-IsOver false round cmd w e h = (rw e (failed-IsOver cmd.id _ _ _ _ w.table h), refl)
handle-IsOver true round cmd w e h =
    let w' : World = record w { table = run w.table round.during } in
    (
      finish-IsOver round.outcome round cmd w' e
          (omega (arith, run-next_id-le w.table round.during)),
      finish_published round.outcome round cmd w',
    )

-- A dispatched command ends, whether its handler is missing, returns, fails or panics, and whatever
-- else happens to the queue meanwhile: once the last write commits, its row has completed or failed
-- (or has been deleted), and exactly two events were published, that it started and how it ended.
pub dispatch-IsOver :
    (round : Round) (cmd : Command) (w : World)
    → round.end_commit ≡ committed
    → cmd.id < w.table.next_id
    → IsOver cmd.id (dispatch round cmd w).table
      × ((dispatch round cmd w).published
          ≡ w.published
            ++ (command_started cmd.id cmd.name
                ∷ end_event (round.registered cmd.name) round cmd
                ∷ []))
unfolding dispatch
dispatch-IsOver round cmd w e h =
    let (over, published) =
      handle-IsOver (round.registered cmd.name) round cmd
        (record w { published = w.published ++ command_started cmd.id cmd.name ∷ [] }) e h in
    (over, published ∙ append_assoc w.published _ _)
