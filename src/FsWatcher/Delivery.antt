-- ===== src/FsWatcher/Delivery.antt =====
-- No trigger of the debouncer is lost, and none fires before its delay.
use sonarr.Common.{
  ℕ, ◌+◌, ◌≤◌, ◌<◌, leb, ==_iff, Text, List, [], ◌∷◌, Option, none, some, ◌≡◌, refl, ap, ◌∙◌, subst,
  inl, inr, arith, In, Bool-cases,
}
use sonarr.FsWatcher.{
  Debouncer, new_debouncer, arm, trigger, run_out, nth, drop_nth, fire, Action, trigger_path, pass,
  expire, run_waiting, step, run,
}
use sonarr.FsWatcher.Invariant.{Inv, set_timer_self, path-set_timer, run-Inv}
use sonarr.FsWatcher.Owed.{Armed, Fired, Owed, step-Owed}

-- Time does not run backwards.
arm-now : (delay : ℕ) (p : Text) (o : Option ℕ) (d : Debouncer) → (arm delay p o d).now ≡ d.now
unfolding arm
arm-now delay p none d = refl
arm-now delay p (some i) d = refl

run_out-now : (i : ℕ) (o : Option ℕ) (d : Debouncer) → (run_out i o d).now ≡ d.now
unfolding run_out
run_out-now i none d = refl
run_out-now i (some t) d = elim (Bool-cases (leb t d.now)) [
  | inl e ↦ simp e refl
  | inr e ↦ simp e refl
]

fire-now : (rest : List Text) (o : Option Text) (d : Debouncer) → (fire rest o d).now ≡ d.now
unfolding fire
fire-now rest none d = refl
fire-now rest (some p) d = refl

step-now : (delay : ℕ) (a : Action) (d : Debouncer) → d.now ≤ (step delay a d).now
unfolding step trigger
step-now delay (trigger_path p) d = omega (arith, arm-now delay p (d.pending p) d)
step-now delay (pass t) d = omega arith
step-now delay (expire i) d = omega (arith, run_out-now i (d.timer i).deadline d)
step-now delay (run_waiting k) d =
    omega (arith, fire-now (drop_nth k d.waiting) (nth k d.waiting) d)

run-Owed :
    (delay due : ℕ) (q : Text) (acts : List Action) (d : Debouncer)
    → due ≤ d.now + delay
    → Owed due q d
    → Owed due q (run delay acts d)
unfolding run
run-Owed delay due q [] d l h = h
run-Owed delay due q (a ∷ acts) d l h =
    run-Owed delay due q acts (step delay a d) (omega (arith, step-now delay a d))
      (step-Owed delay due q a d l h)

trigger-Armed :
    (delay : ℕ) (p : Text) (o : Option ℕ) (d : Debouncer)
    → d.pending p ≡ o
    → Inv d
    → Armed (d.now + delay) p (arm delay p o d)
unfolding arm
trigger-Armed delay p (some i) d e v = (
  i,
  d.now + delay,
  path-set_timer i i _ d.timer refl ∙ (v.own p i e).0,
  ap (λ x. x.deadline) (set_timer_self i i _ d.timer ((==_iff i i).1 refl)),
  omega arith,
  (v.own p i e).1,
)
trigger-Armed delay p none d e v = (
  d.next,
  d.now + delay,
  ap (λ x. x.path) (set_timer_self d.next d.next _ d.timer ((==_iff d.next d.next).1 refl)),
  ap (λ x. x.deadline) (set_timer_self d.next d.next _ d.timer ((==_iff d.next d.next).1 refl)),
  omega arith,
  omega arith,
)

-- No timer is running and no goroutine waits.
pub record IsSettled (d : Debouncer) : Type 0 where
  pub stopped : (i : ℕ) → i < d.next → (d.timer i).deadline ≡ none
  pub awake : d.waiting ≡ []

settled-Fired : (due : ℕ) (q : Text) (d : Debouncer) → IsSettled d → Owed due q d → Fired due q d
settled-Fired due q d s (inl (i, t, a, b, c, n)) = absurd (cc (b, s.stopped i n))
settled-Fired due q d s (inr (inl (m, l))) = absurd (subst (In q) s.awake m)
settled-Fired due q d s (inr (inr h)) = h

-- No trigger is lost: after any history of the debouncer and a trigger of a path, once every timer has
-- run out and every goroutine has run, whatever came between, the path has been fired, at least
-- the delay after that trigger.
pub trigger-Fired :
    (delay start : ℕ) (p : Text) (earlier later : List Action)
    → IsSettled (run delay later (trigger delay p (run delay earlier (new_debouncer start))))
    → Fired
        ((run delay earlier (new_debouncer start)).now + delay)
        p
        (run delay later (trigger delay p (run delay earlier (new_debouncer start))))
unfolding trigger new_debouncer
trigger-Fired delay start p earlier later s =
    let d = run delay earlier (new_debouncer start) in
    let v = run-Inv delay earlier (new_debouncer start) (record { own = λ q i h. absurd (cc) }) in
    settled-Fired (d.now + delay) p _ s (
      run-Owed delay (d.now + delay) p later (arm delay p (d.pending p) d)
        (omega (arith, arm-now delay p (d.pending p) d))
        (inl (trigger-Armed delay p (d.pending p) d refl v)))
