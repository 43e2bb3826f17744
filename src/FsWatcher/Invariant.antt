-- ===== src/FsWatcher/Invariant.antt =====
-- The debouncer's invariant: a pending path has a timer of its own.
use sonarr.Common.{
  ℕ, suc, ◌+◌, ◌<◌, leb, ◌==◌, ==_iff, Text, text_eq, text_eq_iff, true, false, List, [], ◌∷◌,
  Option, none, some, ◌≡◌, refl, sym, ap, ◌∙◌, subst, inl, inr, arith, Bool-cases,
}
use sonarr.FsWatcher.{
  Timer, Debouncer, set_timer, set_pending, arm, trigger, run_out, nth, drop_nth, fire, Action,
  trigger_path, pass, expire, run_waiting, step, run,
}

-- A pending path has a timer of its own, below the counter.
pub record Inv (d : Debouncer) : Type 0 where
  pub own : (p : Text) (i : ℕ) → d.pending p ≡ some i → ((d.timer i).path ≡ p) × (i < d.next)

pub set_timer_self : (i j : ℕ) (t : Timer) (f : ℕ → Timer) → (j == i) ≡ true → set_timer i t f j ≡ t
set_timer_self i j t f e = simp e refl

pub set_timer_ne :
    (i j : ℕ) (t : Timer) (f : ℕ → Timer) → (j == i) ≡ false → set_timer i t f j ≡ f j
set_timer_ne i j t f e = simp e refl

-- A timer that keeps its path changes no path.
pub path-set_timer :
    (i j : ℕ) (t : Timer) (f : ℕ → Timer)
    → t.path ≡ (f i).path
    → (set_timer i t f j).path ≡ (f j).path
path-set_timer i j t f h = elim (Bool-cases (j == i)) [
  | inl e ↦
      ap (λ x. x.path) (set_timer_self i j t f e)
      ∙ h
      ∙ ap (λ x. (f x).path) (sym ((==_iff j i).0 e))
  | inr e ↦ ap (λ x. x.path) (set_timer_ne i j t f e)
]

pub old_timer : (i n : ℕ) → i < n → (i == n) ≡ false
old_timer i n h = ground arith

pending_old :
    (p q : Text) (o : Option ℕ) (f : Text → Option ℕ)
    → text_eq q p ≡ false
    → set_pending p o f q ≡ f q
pending_old p q o f e = simp e refl

pending_new :
    (p q : Text) (o : Option ℕ) (f : Text → Option ℕ) → text_eq q p ≡ true → set_pending p o f q ≡ o
pending_new p q o f e = simp e refl

pub some_inj : {a b : ℕ} → some a ≡ some b → a ≡ b
some_inj h = cc

new-own :
    (delay : ℕ) (p q : Text) (j : ℕ) (d : Debouncer)
    → Inv d
    → (arm delay p none d).pending q ≡ some j
    → (((arm delay p none d).timer j).path ≡ q) × (j < suc d.next)
unfolding arm
new-own delay p q j d v h = elim (Bool-cases (text_eq q p)) [
  | inl e ↦
      subst
        (λ x.
          ((set_timer d.next (record { path = p; deadline = some (d.now + delay) }) d.timer x).path
            ≡ q)
          × (x < suc d.next))
        (some_inj (sym (pending_new p q (some d.next) d.pending e) ∙ h))
        (
          ap (λ x. x.path) (set_timer_self d.next d.next _ d.timer ((==_iff d.next d.next).1 refl))
              ∙ sym ((text_eq_iff q p).0 e),
          omega arith,
        )
  | inr e ↦ new_other (v.own q j (sym (pending_old p q (some d.next) d.pending e) ∙ h))
]
  where
    new_other :
        ((d.timer j).path ≡ q) × (j < d.next)
        → ((set_timer d.next (record { path = p; deadline = some (d.now + delay) }) d.timer j).path
            ≡ q)
          × (j < suc d.next)
    new_other (a, b) =
        (ap (λ x. x.path) (set_timer_ne d.next j _ d.timer (old_timer j d.next b)) ∙ a, omega arith)

arm-Inv : (delay : ℕ) (p : Text) (o : Option ℕ) (d : Debouncer) → Inv d → Inv (arm delay p o d)
unfolding arm
arm-Inv delay p (some i) d v = record {
  own = λ q j h. (path-set_timer i j _ d.timer refl ∙ (v.own q j h).0, (v.own q j h).1);
}
arm-Inv delay p none d v = record { own = λ q j h. new-own delay p q j d v h }

run_out-Inv : (i : ℕ) (o : Option ℕ) (d : Debouncer) → Inv d → Inv (run_out i o d)
unfolding run_out
run_out-Inv i none d v = v
run_out-Inv i (some t) d v = elim (Bool-cases (leb t d.now)) [
  | inl e ↦ simp e (record {
    own = λ q j h. (path-set_timer i j _ d.timer refl ∙ (v.own q j h).0, (v.own q j h).1);
  })
  | inr e ↦ simp e v
]

fire-Inv : (rest : List Text) (o : Option Text) (d : Debouncer) → Inv d → Inv (fire rest o d)
unfolding fire
fire-Inv rest none d v = v
fire-Inv rest (some p) d v = record {
  own = λ q j h. elim (Bool-cases (text_eq q p)) [
    | inl e ↦ absurd (cc (h, pending_new p q none d.pending e))
    | inr e ↦ v.own q j (sym (pending_old p q none d.pending e) ∙ h)
  ];
}

pub step-Inv : (delay : ℕ) (a : Action) (d : Debouncer) → Inv d → Inv (step delay a d)
unfolding step trigger
step-Inv delay (trigger_path p) d v = arm-Inv delay p (d.pending p) d v
step-Inv delay (pass t) d v = record { own = v.own }
step-Inv delay (expire i) d v = run_out-Inv i (d.timer i).deadline d v
step-Inv delay (run_waiting k) d v = fire-Inv (drop_nth k d.waiting) (nth k d.waiting) d v

pub run-Inv : (delay : ℕ) (acts : List Action) (d : Debouncer) → Inv d → Inv (run delay acts d)
unfolding run
run-Inv delay [] d v = v
run-Inv delay (a ∷ acts) d v = run-Inv delay acts (step delay a d) (step-Inv delay a d v)
