-- ===== src/Samples/Watching.antt =====
-- The debouncer of the file watcher at concrete inputs.
use sonarr.Common.{
  ℕ, zero, suc, ◌+◌, ◌<◌, Text, codes, text_eq, List, [], ◌∷◌, none, ◌≡◌, refl, arith,
}
use sonarr.FsWatcher.{
  Action, trigger_path, pass, expire, run_waiting, new_debouncer, trigger, step, run,
}
use sonarr.FsWatcher.Owed.{Fired}
use sonarr.FsWatcher.Delivery.{IsSettled, trigger-Fired}

abbrev show : Text
show = codes "/tv/show"

-- Two triggers of a path, the second while the timer is pending.
abbrev burst : List Action
burst = trigger_path show ∷ pass 3 ∷ []

abbrev quiet : List Action
quiet = pass 2 ∷ expire 0 ∷ pass 3 ∷ expire 0 ∷ run_waiting 0 ∷ []

burst_sample :
    (run 5 quiet (trigger 5 show (run 5 burst (new_debouncer 100)))).log ≡ (show, 108) ∷ []
unfolding run step trigger new_debouncer text_eq
burst_sample = refl

settled : IsSettled (run 5 quiet (trigger 5 show (run 5 burst (new_debouncer 100))))
unfolding run step trigger new_debouncer text_eq
settled = record { stopped = only; awake = refl }
  where
    only :
        (i : ℕ)
        → i < 1
        → ((run 5 quiet (trigger 5 show (run 5 burst (new_debouncer 100)))).timer i).deadline ≡ none
    only zero h = refl
    only (suc i) h = absurd (omega arith)

trigger-Fired_example :
    Fired
      ((run 5 burst (new_debouncer 100)).now + 5)
      show
      (run 5 quiet (trigger 5 show (run 5 burst (new_debouncer 100))))
trigger-Fired_example = trigger-Fired 5 100 show burst quiet settled

-- A trigger between a timer's end and its goroutine's turn resets the timer: the path fires twice.
abbrev late : List Action
late =
    trigger_path show
    ∷ pass 5
    ∷ expire 0
    ∷ trigger_path show
    ∷ run_waiting 0
    ∷ pass 5
    ∷ expire 0
    ∷ run_waiting 0
    ∷ []

late_sample : (run 5 late (new_debouncer 0)).log ≡ (show, 5) ∷ (show, 10) ∷ []
unfolding run step trigger new_debouncer text_eq
late_sample = refl
