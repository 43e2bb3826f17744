-- ===== src/FsWatcher/Owed.antt =====
-- What the debouncer owes to a path that was triggered, through every action.
use sonarr.Common.{
  In-append, In-append_one, ℕ, zero, suc, ◌+◌, ◌≤◌, ◌<◌, leb, leb→le, ◌==◌, ==_iff, Text, List, [],
  ◌∷◌, ◌++◌, Option, none, some, ◌≡◌, refl, sym, ap, ◌∙◌, subst, ◌⊎◌, inl, inr, arith, In,
  Bool-cases,
}
use sonarr.FsWatcher.{
  Debouncer, arm, trigger, run_out, nth, drop_nth, fire, Action, trigger_path, pass, expire,
  run_waiting, step,
}
use sonarr.FsWatcher.Invariant.{set_timer_self, set_timer_ne, path-set_timer, old_timer, some_inj}

-- What is owed to a path: a timer that runs out at `due` or later, or a goroutine that waits since
-- then, or a call that was made then.
abbrev pub Armed : ℕ → Text → Debouncer → Type 0
Armed due p d =
    (i t : ℕ) × ((d.timer i).path ≡ p) × ((d.timer i).deadline ≡ some t) × (due ≤ t) × (i < d.next)

abbrev pub Waits : ℕ → Text → Debouncer → Type 0
Waits due p d = In p d.waiting × (due ≤ d.now)

abbrev pub Fired : ℕ → Text → Debouncer → Type 0
Fired due p d = (t : ℕ) × In (p, t) d.log × (due ≤ t)

abbrev pub Owed : ℕ → Text → Debouncer → Type 0
Owed due p d = Armed due p d ⊎ (Waits due p d ⊎ Fired due p d)

-- A later trigger, of whatever path, leaves a debt owed.
arm-Owed :
    (delay due : ℕ) (q p : Text) (o : Option ℕ) (d : Debouncer)
    → due ≤ d.now + delay
    → Owed due q d
    → Owed due q (arm delay p o d)
unfolding arm
arm-Owed delay due q p (some k) d l (inl (i, t, a, b, c, n)) = elim (Bool-cases (i == k)) [
  | inl e ↦ inl (
    i,
    d.now + delay,
    path-set_timer k i _ d.timer refl ∙ a,
    ap (λ x. x.deadline) (set_timer_self k i _ d.timer e),
    l,
    n,
  )
  | inr e ↦ inl (
    i,
    t,
    path-set_timer k i _ d.timer refl ∙ a,
    ap (λ x. x.deadline) (set_timer_ne k i _ d.timer e) ∙ b,
    c,
    n,
  )
]
arm-Owed delay due q p none d l (inl (i, t, a, b, c, n)) =
    let e =
      set_timer_ne d.next i (record { path = p; deadline = some (d.now + delay) }) d.timer
        (old_timer i d.next n) in
    inl (i, t, ap (λ x. x.path) e ∙ a, ap (λ x. x.deadline) e ∙ b, c, omega arith)
arm-Owed delay due q p (some k) d l (inr h) = inr h
arm-Owed delay due q p none d l (inr h) = inr h

-- A goroutine runs or goes on waiting.
nth-cases :
    (k : ℕ) (p : Text) (xs : List Text) → In p xs → (nth k xs ≡ some p) ⊎ In p (drop_nth k xs)
unfolding nth drop_nth
nth-cases k p [] m = absurd m
nth-cases zero p (x ∷ xs) (inl e) = inl (ap some (sym e))
nth-cases zero p (x ∷ xs) (inr m) = inr m
nth-cases (suc k) p (x ∷ xs) (inl e) = inr (inl e)
nth-cases (suc k) p (x ∷ xs) (inr m) = elim (nth-cases k p xs m) [
  | inl e ↦ inl e
  | inr n ↦ inr (inr n)
]

fire-Owed :
    (due k : ℕ) (q : Text) (o : Option Text) (d : Debouncer)
    → nth k d.waiting ≡ o
    → Owed due q d
    → Owed due q (fire (drop_nth k d.waiting) o d)
unfolding fire
fire-Owed due k q none d e h = h
fire-Owed due k q (some p) d e (inl h) = inl h
fire-Owed due k q (some p) d e (inr (inr (t, m, l))) =
    inr (inr (t, In-append (q, t) d.log ((p, d.now) ∷ []) m, l))
fire-Owed due k q (some p) d e (inr (inl (m, l))) = elim (nth-cases k q d.waiting m) [
  | inl f ↦ inr (
      inr (
        d.now,
        subst (λ x. In (q, d.now) (d.log ++ (x, d.now) ∷ [])) (same f) (In-append_one _ d.log),
        l,
      ))
  | inr n ↦ inr (inl (n, l))
]
  where
    same : nth k d.waiting ≡ some q → q ≡ p
    same f = cc

run_out-Owed :
    (due k : ℕ) (q : Text) (o : Option ℕ) (d : Debouncer)
    → (d.timer k).deadline ≡ o
    → Owed due q d
    → Owed due q (run_out k o d)
unfolding run_out
run_out-Owed due k q none d e h = h
run_out-Owed due k q (some u) d e (inr (inr h)) = elim (Bool-cases (leb u d.now)) [
  | inl f ↦ simp f (inr (inr h))
  | inr f ↦ simp f (inr (inr h))
]
run_out-Owed due k q (some u) d e (inr (inl (m, l))) = elim (Bool-cases (leb u d.now)) [
  | inl f ↦ simp f (inr (inl (In-append q d.waiting _ m, l)))
  | inr f ↦ simp f (inr (inl (m, l)))
]
run_out-Owed due k q (some u) d e (inl (i, t, a, b, c, n)) = elim (Bool-cases (leb u d.now)) [
  | inr f ↦ simp f (inl (i, t, a, b, c, n))
  | inl f ↦ elim (Bool-cases (i == k)) [
    | inr g ↦ simp f (
        inl (
          i,
          t,
          path-set_timer k i _ d.timer refl ∙ a,
          ap (λ x. x.deadline) (set_timer_ne k i _ d.timer g) ∙ b,
          c,
          n,
        ))
    | inl g ↦ simp f (
        inr (
          inl (
            subst (λ x. In q (d.waiting ++ x ∷ []))
                (sym a ∙ ap (λ x. (d.timer x).path) ((==_iff i k).0 g)) (In-append_one q d.waiting),
            omega (arith, leb→le u d.now f, same ((==_iff i k).0 g)),
          )))
  ]
]
  where
    same : i ≡ k → t ≡ u
    same g = some_inj (sym b ∙ ap (λ x. (d.timer x).deadline) g ∙ e)

pub step-Owed :
    (delay due : ℕ) (q : Text) (a : Action) (d : Debouncer)
    → due ≤ d.now + delay
    → Owed due q d
    → Owed due q (step delay a d)
unfolding step trigger
step-Owed delay due q (trigger_path p) d l h = arm-Owed delay due q p (d.pending p) d l h
step-Owed delay due q (pass t) d l (inl h) = inl h
step-Owed delay due q (pass t) d l (inr (inl (m, k))) = inr (inl (m, omega arith))
step-Owed delay due q (pass t) d l (inr (inr h)) = inr (inr h)
step-Owed delay due q (expire i) d l h = run_out-Owed due i q (d.timer i).deadline d refl h
step-Owed delay due q (run_waiting k) d l h = fire-Owed due k q (nth k d.waiting) d refl h
