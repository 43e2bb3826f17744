-- ===== src/Commands/Worker.antt =====
-- internal/commands/worker.go: one worker's loop. What the handler, the lease ticker and the rest
-- of the program do to the queue while a command runs is a history of queue calls; the handler's
-- own result, the clock and the cancellations are given for each round.
pub mod Ending
pub mod Stopping
use sonarr.Common.{
  ℕ, Bool, true, false, not, if◌then◌else◌, List, [], ◌∷◌, ◌++◌, Option, none, some, Text, codes,
}
use sonarr.Commands.Command.{Command, Event, command_started, command_completed, command_failed}
use sonarr.Commands.Queue.{Table, Commit, rolled_back, Call, run, claim, complete, fail}

-- How a handler ends: it returns nil, or an error, or it panics; with its text.
pub data Outcome : Type 0 where
  returned : Outcome
  errored panicked : Text → Outcome

-- The queue's table, and the events published, the oldest first.
pub record World : Type 0 where
  pub table : Table
  pub published : List Event

-- What the environment supplies for one round of the loop.
pub record Round : Type 0 where
  pub stopped : Bool
  pub claim_commit : Commit
  pub claimed_at : ℕ
  pub stopped_after_claim : Bool
  pub registered : Text → Bool
  pub during : List (Commit × ℕ × Call)
  pub outcome : Outcome
  pub end_commit : Commit
  pub ended_at : ℕ
  pub duration : ℕ

publish : Event → World → World
publish e w = record w { published = w.published ++ e ∷ [] }

-- `queue.Fail` and the event that reports it; errors of both are dropped.
unfoldable pub fail_command : Round → Command → Text → Text → World → World
unfolding publish
fail_command round cmd exception message w =
    publish (command_failed cmd.id cmd.name exception) (record w {
      table =
          (fail round.end_commit cmd.id round.duration exception message round.ended_at w.table).0;
    })

unfoldable pub complete_command : Round → Command → World → World
unfolding publish
complete_command round cmd w =
    publish (command_completed cmd.id cmd.name round.duration) (record w {
      table =
          (complete round.end_commit cmd.id round.duration [] (codes "ok") round.ended_at
            w.table).0;
    })

-- The `switch` at the end of `dispatch`.
unfoldable pub finish : Outcome → Round → Command → World → World
unfolding fail_command complete_command
finish returned round cmd w = complete_command round cmd w
finish (errored e) round cmd w = fail_command round cmd e (codes "handler error") w
finish (panicked e) round cmd w = fail_command round cmd e (codes "panic") w

handle : Bool → Round → Command → World → World
unfolding fail_command finish
handle false round cmd w =
    fail_command round cmd (codes "no handler registered") (codes "no handler registered") w
handle true round cmd w =
    finish round.outcome round cmd (record w { table = run w.table round.during })

unfoldable pub dispatch : Round → Command → World → World
unfolding publish handle
dispatch round cmd w =
    handle (round.registered cmd.name) round cmd (publish (command_started cmd.id cmd.name) w)

-- If the worker was stopped after it claimed a command, `queue.Fail` is called with the context that
-- is cancelled: `pool.Write` or the statement itself refuses it, so this write never commits.
after_claim : Bool → Round → Command → World → World × Bool
unfolding dispatch
after_claim true round cmd w = (
  record w {
    table =
        (fail rolled_back cmd.id 0 (codes "worker shutdown before dispatch") (codes "shutdown")
          round.ended_at w.table).0;
  },
  false,
)
after_claim false round cmd w = (dispatch round cmd w, true)

-- A claim that fails or finds nothing waits and tries again, unless the worker is stopped.
with_claim : Round → World → Option (Option Command) → World × Bool
unfolding after_claim
with_claim round w none = (w, not round.stopped_after_claim)
with_claim round w (some none) = (w, not round.stopped_after_claim)
with_claim round w (some (some cmd)) = after_claim round.stopped_after_claim round cmd w

claim_round : Text → ℕ → Round → World → World × Bool
unfolding with_claim
claim_round worker lease round w =
    let (t, got) = claim round.claim_commit worker lease round.claimed_at w.table in
    with_claim round (record w { table = t }) got

-- One round of `run`: the new world, and whether the loop goes on.
unfoldable pub run_round : Text → ℕ → Round → World → World × Bool
unfolding claim_round
run_round worker lease round w =
    if round.stopped then (w, false) else claim_round worker lease round w

-- The loop of `run`, over the rounds that the environment gives it.
unfoldable pub run_worker : Text → ℕ → List Round → World → World
unfolding run_round
run_worker worker lease [] w = w
run_worker worker lease (round ∷ rounds) w =
    let (w', more) = run_round worker lease round w in
    let rest = run_worker worker lease rounds w' in if more then rest else w'
