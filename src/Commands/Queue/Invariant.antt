-- ===== src/Commands/Queue/Invariant.antt =====
-- What holds of the queue's table between two calls.
use sonarr.Common.{
  ℕ, List, [], ◌∷◌, Option, none, some, ◌≡◌, refl, arith, All, Bool-cases, ◌+◌, true, inl, inr,
  Text,
}
use sonarr.Commands.Command.{Command, Status, queued, running, completed, failed}
use sonarr.Commands.Queue.{
  Table, Commit, committed, rolled_back, unreported, new_row, select_next, mark_running,
  claim_found, completed_row, failed_row, refreshed_row, requeued_row, is_expired, is_running, Call,
  enqueues, claims, completes, fails, refreshes, sweeps, deletes, step, run,
}
use sonarr.Commands.Queue.Rows.{
  Rising, Rising-append, Rising-update_row, Rising-sweep_rows, Rising-delete_rows,
}
use sonarr.Commands.Queue.Steps.{IsStable, step-All, step-rolled_back, step-unreported}

-- The columns that a status calls for.
abbrev pub HasShape : Command → Status → Type 0
HasShape r queued =
    (r.started_at ≡ none) × (r.lease_until ≡ none) × (r.ended_at ≡ none) × (r.worker_id ≡ [])
HasShape r running =
    ((s : ℕ) × (r.started_at ≡ some s)) × ((l : ℕ) × (r.lease_until ≡ some l)) × (r.ended_at ≡ none)
HasShape r completed = ((e : ℕ) × (r.ended_at ≡ some e)) × ((d : ℕ) × (r.duration_ms ≡ some d))
HasShape r failed = ((e : ℕ) × (r.ended_at ≡ some e)) × ((d : ℕ) × (r.duration_ms ≡ some d))

abbrev pub IsShaped : Command → Type 0
IsShaped r = HasShape r r.status

pub record Inv (t : Table) : Type 0 where
  pub rising : Rising 0 t.next_id t.rows
  pub shaped : All IsShaped t.rows

claim_found-Rising :
    (worker : Text) (lease now : ℕ) (t : Table) (o : Option Command)
    → Rising 0 t.next_id t.rows
    → let t' = (claim_found worker lease now t o).0 in Rising 0 t'.next_id t'.rows
unfolding claim_found
claim_found-Rising worker lease now t none h = h
claim_found-Rising worker lease now t (some r) h =
    Rising-update_row 0 t.next_id r.id _ t.rows (λ x. refl) h

pub refreshed_row-id : (lease_until : ℕ) (r : Command) → (refreshed_row lease_until r).id ≡ r.id
unfolding refreshed_row
refreshed_row-id lease_until r = ground arith

call-Rising :
    (now : ℕ) (t : Table) (c : Call)
    → Rising 0 t.next_id t.rows
    → let t' = step committed now t c in Rising 0 t'.next_id t'.rows
unfolding step
call-Rising now t (enqueues name body priority trigger key) h =
    Rising-append 0 t.next_id t.rows _ h refl
call-Rising now t (claims worker lease) h =
    claim_found-Rising worker lease now t (select_next t.rows) h
call-Rising now t (completes id duration result message) h =
    Rising-update_row 0 t.next_id id _ t.rows (λ x. refl) h
call-Rising now t (fails id duration exception message) h =
    Rising-update_row 0 t.next_id id _ t.rows (λ x. refl) h
call-Rising now t (refreshes id lease) h =
    Rising-update_row 0 t.next_id id _ t.rows (λ x. refreshed_row-id _ x) h
call-Rising now t sweeps h = Rising-sweep_rows 0 t.next_id now t.rows h
call-Rising now t (deletes cutoff) h = Rising-delete_rows 0 t.next_id cutoff t.rows h

pub step-Rising :
    (commit : Commit) (now : ℕ) (t : Table) (c : Call)
    → Rising 0 t.next_id t.rows
    → let t' = step commit now t c in Rising 0 t'.next_id t'.rows
step-Rising committed now t c h = call-Rising now t c h
step-Rising rolled_back now t c h = rw (step-rolled_back now t c) h
step-Rising unreported now t c h = rw (step-unreported now t c) (call-Rising now t c h)

leased_shape :
    (s : Status) (r : Command) (n : ℕ)
    → is_running s ≡ true
    → HasShape r s
    → HasShape (record r { lease_until = some n }) s
leased_shape running r n on p = (p.0, (n, refl), p.2)
leased_shape queued r n on p = cc
leased_shape completed r n on p = cc
leased_shape failed r n on p = cc

running_unended :
    (s : Status) (r : Command) → is_running s ≡ true → HasShape r s → r.ended_at ≡ none
running_unended running r on p = p.2
running_unended queued r on p = cc
running_unended completed r on p = cc
running_unended failed r on p = cc

refreshed_row-IsShaped : (r : Command) (n : ℕ) → IsShaped r → IsShaped (refreshed_row n r)
unfolding refreshed_row
refreshed_row-IsShaped r n p = elim (Bool-cases (is_running r.status)) [
  | inl e ↦ rw e (leased_shape r.status r n e p)
  | inr e ↦ rw e p
]

is_expired-running : (now : ℕ) (r : Command) → is_expired now r ≡ true → is_running r.status ≡ true
unfolding is_expired
is_expired-running now r e = ground arith

IsShaped-IsStable : (t : Table) (now : ℕ) (c : Call) → IsStable IsShaped t now c
unfolding new_row mark_running completed_row failed_row requeued_row
IsShaped-IsStable t now c = record {
  fresh = λ name body priority trigger key. (refl, refl, refl, refl);
  taken = λ r worker lease on p. ground arith;
  finished = λ r duration result message p. ((now, refl), (duration, refl));
  broken = λ r duration exception message p. ((now, refl), (duration, refl));
  refreshed = λ id lease r ce e p. refreshed_row-IsShaped r (now + lease) p;
  requeued = λ r e p. (refl, refl, running_unended r.status r (is_expired-running now r e) p, refl);
}

-- Every call, however its write ends, keeps the ids rising below the counter, and every row with
-- the columns that its status calls for.
pub step-Inv :
    (commit : Commit) (now : ℕ) (t : Table) (c : Call) → Inv t → Inv (step commit now t c)
step-Inv commit now t c v = record {
  rising = step-Rising commit now t c v.rising;
  shaped = step-All IsShaped t now v.rising commit c (IsShaped-IsStable t now c) v.shaped;
}

pub run-Rising :
    (t : Table) (cs : List (Commit × ℕ × Call))
    → Rising 0 t.next_id t.rows
    → Rising 0 (run t cs).next_id (run t cs).rows
unfolding run
run-Rising t [] h = h
run-Rising t ((commit, now, c) ∷ cs) h =
    run-Rising (step commit now t c) cs (step-Rising commit now t c h)

pub run-Inv : (t : Table) (cs : List (Commit × ℕ × Call)) → Inv t → Inv (run t cs)
unfolding run
run-Inv t [] v = v
run-Inv t ((commit, now, c) ∷ cs) v = run-Inv (step commit now t c) cs (step-Inv commit now t c v)
