-- ===== src/Commands/Queue/Leases.antt =====
-- A lease keeps a command with its worker.
use sonarr.Common.{
  ℕ, ◌+◌, ◌≤◌, ◌<◌, true, false, List, [], ◌∷◌, Option, some, ◌≡◌, ◌≢◌, refl, arith, In, All,
  All-In, inl, inr, Text, Bool-cases, if◌then◌else◌, ◌==◌, ap, subst, sym, ◌∙◌,
}
use sonarr.Commands.Command.{Command}
use sonarr.Commands.Queue.{
  Table, Commit, committed, is_queued, is_running, new_row, before, mark_running, completed_row,
  failed_row, refreshed_row, requeued_row, is_expired, update_row, claim, Call, claims, refreshes,
  step, run,
}
use sonarr.Commands.Queue.Rows.{Rising, In-lt}
use sonarr.Commands.Queue.Claiming.{Takes, claim_lem}
use sonarr.Commands.Queue.Steps.{IsStable, step-All}
use sonarr.Commands.Queue.Invariant.{refreshed_row-id, step-Rising}
use sonarr.Commands.Queue.Lifecycle.{step-next_id-le}

-- The row is not queued, and while it runs its lease lasts until `until` at least.
abbrev pub IsLeased : ℕ → Command → Type 0
IsLeased until r =
    (is_queued r.status ≡ false)
    × (is_running r.status ≡ true → (l : ℕ) × (r.lease_until ≡ some l) × (until ≤ l))

abbrev pub IsHeld : ℕ → ℕ → Table → Type 0
IsHeld id until t = (id < t.next_id) × All (λ r. r.id ≡ id → IsLeased until r) t.rows

-- A call that comes before the lease runs out, and does not shorten it.
abbrev pub IsTimely : ℕ → ℕ → ℕ → Call → Type 0
IsTimely id until now c =
    (now ≤ until) × ((i lease : ℕ) → c ≡ refreshes i lease → i ≡ id → until ≤ now + lease)

refreshed-IsLeased :
    (until n : ℕ) (r : Command) → until ≤ n → IsLeased until r → IsLeased until (refreshed_row n r)
unfolding refreshed_row
refreshed-IsLeased until n r h p = elim (Bool-cases (is_running r.status)) [
  | inl e ↦ rw e (p.0, (λ on. (n, refl, h)))
  | inr e ↦ rw e p
]

before_lease :
    (until now : ℕ) (o : Option ℕ) (l : ℕ)
    → o ≡ some l
    → until ≤ l
    → now ≤ until
    → before o now ≡ false
unfolding before
before_lease until now o l e h k = ground arith

not_expired :
    (until now : ℕ) (r : Command) → now ≤ until → IsLeased until r → is_expired now r ≡ false
unfolding is_expired
not_expired until now r h p = elim (Bool-cases (is_running r.status)) [
  | inl e ↦ let (l, q, k) = p.1 e in rw e (before_lease until now r.lease_until l q k h)
  | inr e ↦ rw e
]

IsHeld-IsStable :
    (id until : ℕ) (t : Table) (now : ℕ) (c : Call)
    → id < t.next_id
    → IsTimely id until now c
    → IsStable (λ r. r.id ≡ id → IsLeased until r) t now c
unfolding new_row mark_running completed_row failed_row requeued_row
IsHeld-IsStable id until t now c h timely = record {
  fresh = λ name body priority trigger key e. absurd (omega arith);
  taken = λ r worker lease on p e. cc (on, (p e).0);
  finished = λ r duration result message p e. (refl, (λ on. cc));
  broken = λ r duration exception message p e. (refl, (λ on. cc));
  refreshed = λ i lease r ce ie p e.
      refreshed-IsLeased until (now + lease) r
        (timely.1 i lease ce (omega (arith, refreshed_row-id (now + lease) r)))
        (p (omega (arith, refreshed_row-id (now + lease) r)));
  requeued = λ r x p e. cc (x, not_expired until now r timely.0 (p e));
}

step-IsHeld :
    (id until : ℕ) (commit : Commit) (now : ℕ) (t : Table) (c : Call)
    → Rising 0 t.next_id t.rows
    → IsTimely id until now c
    → IsHeld id until t
    → IsHeld id until (step commit now t c)
step-IsHeld id until commit now t c rising timely h = (
  omega (arith, step-next_id-le commit now t c),
  step-All _ t now rising commit c (IsHeld-IsStable id until t now c h.0 timely) h.1,
)

abbrev pub AllTimely : ℕ → ℕ → List (Commit × ℕ × Call) → Type 0
AllTimely id until = All (λ e. IsTimely id until e.1 e.2)

run-IsHeld :
    (id until : ℕ) (t : Table) (cs : List (Commit × ℕ × Call))
    → Rising 0 t.next_id t.rows
    → AllTimely id until cs
    → IsHeld id until t
    → (Rising 0 (run t cs).next_id (run t cs).rows) × IsHeld id until (run t cs)
unfolding run
run-IsHeld id until t [] rising timely h = (rising, h)
run-IsHeld id until t ((commit, now, c) ∷ cs) rising timely h =
    run-IsHeld id until (step commit now t c) cs (step-Rising commit now t c rising) timely.1
      (step-IsHeld id until commit now t c rising timely.0 h)

pub updated_rows :
    (Q : Command → Type 0) (id : ℕ) (f : Command → Command) (rs : List Command)
    → ((x : Command) → Q (f x))
    → All (λ x. x.id ≡ id → Q x) (update_row id f rs)
unfolding update_row
updated_rows Q id f [] k = tt
updated_rows Q id f (r ∷ rs) k = (head, updated_rows Q id f rs k)
  where
    head : (if r.id == id then f r else r).id ≡ id → Q (if r.id == id then f r else r)
    head = elim (Bool-cases (r.id == id)) [
      | inl e ↦ rw e (λ _. k r)
      | inr e ↦ rw e (λ x. absurd (ground arith))
    ]

claimed-IsHeld :
    (worker : Text) (lease now : ℕ) (t : Table) (r : Command)
    → Rising 0 t.next_id t.rows
    → Takes worker lease now t (claim committed worker lease now t) r
    → IsHeld r.id (now + lease) (claim committed worker lease now t).0
unfolding mark_running
claimed-IsHeld worker lease now t r rising (m, on, soonest, v, e) = rw e (
  In-lt 0 t.next_id r t.rows rising m,
  updated_rows (IsLeased (now + lease)) r.id (mark_running worker (now + lease) now) t.rows
      (λ x. (refl, (λ _. (now + lease, refl, omega arith)))),
)

-- The command that a claim returns, with the row that it was.
claimed :
    (worker : Text) (lease now : ℕ) (t : Table) (c : Command)
    → Rising 0 t.next_id t.rows
    → (claim committed worker lease now t).1 ≡ some (some c)
    → (r : Command) × Takes worker lease now t (claim committed worker lease now t) r
      × (c.id ≡ r.id)
unfolding mark_running
claimed worker lease now t c rising e = elim (claim_lem worker lease now t rising) [
  | inl (_, none_left) ↦
      absurd (cc (e, ap (λ (x : Table × Option (Option Command)). x.1) none_left))
  | inr (r, takes) ↦ (r, takes, ground (arith, e, takes.3))
]

-- The id of a claimed command has been given out.
pub claimed-id-lt :
    (worker : Text) (lease now : ℕ) (t : Table) (c : Command)
    → Rising 0 t.next_id t.rows
    → (claim committed worker lease now t).1 ≡ some (some c)
    → c.id < (claim committed worker lease now t).0.next_id
claimed-id-lt worker lease now t c rising got =
    let (r, takes, same) = claimed worker lease now t c rising got in
    rw same (claimed-IsHeld worker lease now t r rising takes).0

held_not_claimed :
    (id until : ℕ) (t : Table) (r : Command)
    → In r t.rows
    → is_queued r.status ≡ true
    → IsHeld id until t
    → r.id ≢ id
held_not_claimed id until t r m on (h, held) e =
    cc (on, (All-In (λ x. x.id ≡ id → IsLeased until x) r t.rows held m e).0)

-- A claimed command is its worker's alone: whatever calls come before its lease runs out, refreshes
-- of it that do not shorten the lease among them, the next claim gives another command or none.
pub claim_exclusive :
    (worker other : Text) (lease lease' now now' : ℕ) (t : Table) (cs : List (Commit × ℕ × Call))
    (c c' : Command)
    → Rising 0 t.next_id t.rows
    → (claim committed worker lease now t).1 ≡ some (some c)
    → AllTimely c.id (now + lease) cs
    → (claim committed other lease' now' (run (claim committed worker lease now t).0 cs)).1
      ≡ some (some c')
    → c'.id ≢ c.id
unfolding step
claim_exclusive worker other lease lease' now now' t cs c c' rising got timely got' e =
    let (r, takes, same) = claimed worker lease now t c rising got in
    let (rising', held) =
      run-IsHeld r.id (now + lease) (claim committed worker lease now t).0 cs
        (step-Rising committed now t (claims worker lease) rising)
        (subst (λ i. AllTimely i (now + lease) cs) same timely)
        (claimed-IsHeld worker lease now t r rising takes) in
    let (r', takes', same') = claimed other lease' now' _ c' rising' got' in
    held_not_claimed r.id (now + lease) _ r' takes'.0 takes'.1 held (sym same' ∙ e ∙ same)
