-- ===== src/Samples/Queue.antt =====
-- The queue, a worker and the scheduler at concrete inputs.
use sonarr.Common.{
  ℕ, ◌+◌, ◌-◌, length, ◌≤◌, true, false, List, [], ◌∷◌, ◌++◌, none, some, Text, codes, ◌≡◌, ◌≢◌,
  refl, ◌⊎◌, inl, arith, All, text_eq,
}
use sonarr.Commands.Command.{Command, queued, running, failed, manual, command_started}
use sonarr.Commands.Queue.{
  Table, Commit, committed, unreported, Call, claims, refreshes, sweeps, step, run, claim,
  is_queued, select_next, sooner, is_expired, get_row,
}
use sonarr.Commands.Queue.Claiming.{Takes, claim_lem}
use sonarr.Commands.Queue.Invariant.{Inv, step-Inv}
use sonarr.Commands.Queue.Lifecycle.{IsOver, run-IsOver}
use sonarr.Commands.Queue.Draining.{Claim, queued_count, claim_all, claim_all-drains}
use sonarr.Commands.Queue.Leases.{claim_exclusive}
use sonarr.Commands.Worker.{panicked, Round, World, dispatch, run_round}
use sonarr.Commands.Worker.Stopping.{stopped-requeued}
use sonarr.Commands.Worker.Ending.{dispatch-IsOver, end_event}
use sonarr.Scheduler
use sonarr.Scheduler.{ScheduledTask, Database, tick}
use sonarr.Commands.Queue.Counting.{active_count}
use sonarr.Scheduler.Tick.{active, tick-at_most_one, tick-exactly_one}

abbrev low : Command
low = record {
  id = 0;
  name = codes "Backup";
  body = [];
  priority = 3;
  status = queued;
  queued_at = 100;
  started_at = none;
  ended_at = none;
  duration_ms = none;
  exception = [];
  trigger = manual;
  message = [];
  result = codes "{}";
  worker_id = [];
  lease_until = none;
  dedup_key = codes "Backup";
}

abbrev normal : Command
normal = record low { id = 1; name = codes "RssSync"; priority = 2; dedup_key = codes "RssSync" }

abbrev busy : Table
busy = record { rows = low ∷ normal ∷ []; next_id = 2 }

abbrev ended : Table
ended = record {
  rows = record low { status = failed; ended_at = some 110; duration_ms = some 5 } ∷ normal ∷ [];
  next_id = 2;
}

-- The row as a worker holds it.
abbrev taken : Command
taken = record normal {
  status = running;
  worker_id = codes "w1";
  started_at = some 120;
  lease_until = some 420;
}

claim_sample : (claim committed (codes "w1") 300 120 busy).1 ≡ some (some taken)
unfolding claim select_next sooner
claim_sample = refl

claim_lem_example :
    (All (λ q. is_queued q.status ≡ false) (low ∷ normal ∷ [])
      × (claim committed (codes "w1") 300 120 busy ≡ (busy, some none)))
    ⊎ ((r : Command) × Takes
          (codes "w1")
          300
          120
          busy
          (claim committed (codes "w1") 300 120 busy)
          r)
claim_lem_example = claim_lem (codes "w1") 300 120 busy (omega arith)

abbrev both : List Claim
both =
    record { worker = codes "w1"; lease = 300; now = 120 }
    ∷ record { worker = codes "w2"; lease = 300; now = 121 }
    ∷ []

claim_all-drains_example :
    queued_count (claim_all both busy).rows ≡ queued_count busy.rows - length both
claim_all-drains_example = claim_all-drains both busy (omega arith)

step-Inv_example : Inv (step committed 120 busy (claims (codes "w1") 300))
step-Inv_example = step-Inv committed 120 busy (claims (codes "w1") 300) (record {
  rising = omega arith;
  shaped = ((refl, refl, refl, refl), ((refl, refl, refl, refl), tt));
})

abbrev history : List (Commit × ℕ × Call)
history = (committed, 200, sweeps) ∷ (unreported, 210, claims (codes "w2") 300) ∷ []

run-IsOver_example : IsOver 0 (run ended history)
run-IsOver_example =
    run-IsOver 0 ended history (omega arith)
      (omega arith, ((λ e. refl), ((λ e. absurd (omega arith)), tt)))

claim_exclusive_example : ◌≢◌ {A = ℕ} 0 1
unfolding claim run step select_next sooner is_expired
claim_exclusive_example =
    claim_exclusive (codes "w1") (codes "w2") 300 300 120 220 busy ((committed, 200, sweeps) ∷ [])
      taken
      (record low {
        status = running;
        worker_id = codes "w2";
        started_at = some 220;
        lease_until = some 520;
      })
      (omega arith) claim_sample ((omega arith, (λ i lease e. cc)), tt) refl

abbrev round : Round
round = record {
  stopped = false;
  claim_commit = committed;
  claimed_at = 120;
  stopped_after_claim = true;
  registered = λ name. true;
  during = (committed, 200, refreshes 1 300) ∷ [];
  outcome = panicked (codes "panic: boom");
  end_commit = committed;
  ended_at = 230;
  duration = 110000;
}

abbrev world : World
world = record { table = busy; published = [] }

dispatch-IsOver_example :
    IsOver 1 (dispatch round taken world).table
    × ((dispatch round taken world).published
        ≡ [] ++ (command_started 1 (codes "RssSync") ∷ end_event true round taken ∷ []))
dispatch-IsOver_example = dispatch-IsOver round taken world refl (omega arith)

stopped-requeued_example :
    ((run_round (codes "w1") 300 round world).1 ≡ false)
    × ((run_round (codes "w1") 300 round world).0.published ≡ [])
    × (get_row 1 (run_round (codes "w1") 300 round world).0.table.rows ≡ some taken)
    × (taken.status ≡ running)
    × (taken.lease_until ≡ some (120 + 300))
    × (get_row 1 (step committed 500 (run_round (codes "w1") 300 round world).0.table sweeps).rows
        ≡ some (record taken {
          status = queued;
          worker_id = [];
          started_at = none;
          lease_until = none;
        }))
stopped-requeued_example =
    stopped-requeued (codes "w1") 300 round world taken 500 (omega arith) refl refl refl
      claim_sample (omega arith)

abbrev rss : ScheduledTask
rss = record {
  type_name = codes "RssSync";
  interval_secs = 900;
  last_execution = none;
  next_execution = 50;
}

abbrev healthy : Text → Database
healthy name = record { finds = true; enqueues = committed; updates = true }

abbrev idle : Scheduler.World
idle = record { queue = record { rows = low ∷ []; next_id = 1 }; tasks = rss ∷ [] }

tick-at_most_one_example : active (codes "Backup") (tick true healthy committed 130 idle) ≤ 1
unfolding active_count text_eq
tick-at_most_one_example =
    tick-at_most_one true healthy committed 130 idle (codes "Backup") (omega arith)

tick-exactly_one_example : active (codes "RssSync") (tick true healthy committed 130 idle) ≡ 1
unfolding active_count text_eq
tick-exactly_one_example =
    tick-exactly_one healthy committed 130 idle rss (inl refl) (omega arith) refl (λ e. cc)
      (omega arith)
