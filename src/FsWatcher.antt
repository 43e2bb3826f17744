-- ===== src/FsWatcher.antt =====
-- internal/fswatcher/debouncer.go. A timer runs out at its deadline or later, in a goroutine of its
-- own, which waits for the lock before it removes the path and calls `fire`; other calls may come
-- between. The log holds each fired path with its time, the oldest first.
pub mod Invariant
pub mod Owed
pub mod Delivery
use sonarr.Common.{
  ℕ, zero, suc, ◌+◌, leb, ◌==◌, Text, text_eq, List, [], ◌∷◌, ◌++◌, Option, none, some,
  if◌then◌else◌,
}

pub record Timer : Type 0 where
  pub path : Text
  pub deadline : Option ℕ

pub record Debouncer : Type 0 where
  pub now : ℕ
  pub next : ℕ
  pub timer : ℕ → Timer
  pub pending : Text → Option ℕ
  pub waiting : List Text
  pub log : List (Text × ℕ)

-- `newDebouncer`, at a time.
unfoldable pub new_debouncer : ℕ → Debouncer
new_debouncer now = record {
  now = now;
  next = 0;
  timer = λ _. record { path = []; deadline = none };
  pending = λ _. none;
  waiting = [];
  log = [];
}

abbrev pub set_timer : ℕ → Timer → (ℕ → Timer) → ℕ → Timer
set_timer i t f j = if j == i then t else f j

abbrev pub set_pending : Text → Option ℕ → (Text → Option ℕ) → Text → Option ℕ
set_pending p o f q = if text_eq q p then o else f q

-- `t.Reset(d.delay)` of a pending timer, or a new one.
arm : ℕ → Text → Option ℕ → Debouncer → Debouncer
arm delay p (some i) d = record d {
  timer = set_timer i (record { path = (d.timer i).path; deadline = some (d.now + delay) }) d.timer;
}
arm delay p none d = record d {
  next = suc d.next;
  timer = set_timer d.next (record { path = p; deadline = some (d.now + delay) }) d.timer;
  pending = set_pending p (some d.next) d.pending;
}

unfoldable pub trigger : ℕ → Text → Debouncer → Debouncer
unfolding arm
trigger delay p d = arm delay p (d.pending p) d

-- A timer whose deadline has come starts its goroutine.
run_out : ℕ → Option ℕ → Debouncer → Debouncer
run_out i none d = d
run_out i (some t) d =
    if leb t d.now
    then record d {
      timer = set_timer i (record { path = (d.timer i).path; deadline = none }) d.timer;
      waiting = d.waiting ++ (d.timer i).path ∷ [];
    }
    else d

-- The element at a position, and the list without it.
nth : ℕ → List Text → Option Text
nth k [] = none
nth zero (x ∷ xs) = some x
nth (suc k) (x ∷ xs) = nth k xs

drop_nth : ℕ → List Text → List Text
drop_nth k [] = []
drop_nth zero (x ∷ xs) = xs
drop_nth (suc k) (x ∷ xs) = x ∷ drop_nth k xs

-- The function that AfterFunc runs, once it has the lock.
fire : List Text → Option Text → Debouncer → Debouncer
fire rest none d = d
fire rest (some p) d = record d {
  pending = set_pending p none d.pending;
  waiting = rest;
  log = d.log ++ (p, d.now) ∷ [];
}

pub data Action : Type 0 where
  trigger_path : Text → Action
  pass : ℕ → Action
  expire : ℕ → Action
  run_waiting : ℕ → Action

unfoldable pub step : ℕ → Action → Debouncer → Debouncer
unfolding trigger run_out nth drop_nth fire
step delay (trigger_path p) d = trigger delay p d
step delay (pass t) d = record d { now = d.now + t }
step delay (expire i) d = run_out i (d.timer i).deadline d
step delay (run_waiting k) d = fire (drop_nth k d.waiting) (nth k d.waiting) d

unfoldable pub run : ℕ → List Action → Debouncer → Debouncer
unfolding step
run delay [] d = d
run delay (a ∷ acts) d = run delay acts (step delay a d)
