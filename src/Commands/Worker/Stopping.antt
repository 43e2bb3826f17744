-- ===== src/Commands/Worker/Stopping.antt =====
-- What becomes of a command whose worker is stopped right after the claim.
use sonarr.Common.{
  ℕ, ◌<◌, ◌+◌, ◌==◌, Bool-cases, inl, inr, Option, none, true, false, List, [], ◌∷◌, some, Text,
  ◌≡◌, refl, arith, ◌∙◌, ap, sym,
}
use mathlib.Core.Option.{some-injective}
use sonarr.Commands.Command.{running, queued, Command}
use sonarr.Commands.Queue.{
  Table, committed, claim, step, get_row, is_expired, sweep_rows, requeued_row, mark_running,
  sweeps,
}
use sonarr.Commands.Queue.Rows.{Rising}
use sonarr.Commands.Queue.Claiming.{claim_lem, get_row-mark_running}
use sonarr.Commands.Worker.{World, Round, after_claim, with_claim, claim_round, run_round}

-- A row whose lease has run out is requeued by the sweep, under its id.
get_row-sweep_rows :
    (id now : ℕ) (rs : List Command) (c : Command)
    → get_row id rs ≡ some c
    → is_expired now c ≡ true
    → get_row id (sweep_rows now rs).0 ≡ some (requeued_row c)
unfolding sweep_rows requeued_row
get_row-sweep_rows id now [] c g h = cc
get_row-sweep_rows id now (r ∷ rs) c g h = elim (Bool-cases (r.id == id)) [
  | inl e ↦
      let q : r ≡ c = some-injective r c (simp e at g) in
      let h' : is_expired now r ≡ true = ap (is_expired now) q ∙ h in
      simp (h', e) (ap (λ x. some (requeued_row x)) q)
  | inr e ↦ elim (Bool-cases (is_expired now r)) [
    | inl k ↦ simp (k, e) (get_row-sweep_rows id now rs c (simp e at g) h)
    | inr k ↦ simp (k, e) (get_row-sweep_rows id now rs c (simp e at g) h)
  ]
]

late_is_expired :
    (now until : ℕ) (c : Command)
    → c.status ≡ running
    → c.lease_until ≡ some until
    → until < now
    → is_expired now c ≡ true
unfolding is_expired
late_is_expired now until c on e late = rw (on, e) (ground arith)

-- The command that a claim returns is in the table, running until its lease runs out.
claimed_row :
    (worker : Text) (lease now : ℕ) (t : Table) (cmd : Command)
    → Rising 0 t.next_id t.rows
    → (claim committed worker lease now t).1 ≡ some (some cmd)
    → (get_row cmd.id (claim committed worker lease now t).0.rows ≡ some cmd)
      × (cmd.status ≡ running)
      × (cmd.lease_until ≡ some (now + lease))
unfolding mark_running
claimed_row worker lease now t cmd rising got = elim (claim_lem worker lease now t rising) [
  | inl (_, none_left) ↦
      absurd (cc (got, ap (λ (x : Table × Option (Option Command)). x.1) none_left))
  | inr (r, takes) ↦
      let same : mark_running worker (now + lease) now r ≡ cmd =
        some-injective _ cmd (some-injective _ (some cmd) (sym takes.3 ∙ got)) in
      (
        ap (λ i. get_row i (claim committed worker lease now t).0.rows) (ap (λ c. c.id) (sym same))
            ∙ ap (λ u. get_row r.id u.rows) takes.4
            ∙ get_row-mark_running worker lease now t r rising takes.0
            ∙ ap some same,
        ap (λ c. c.status) (sym same),
        ap (λ c. c.lease_until) (sym same),
      )
]

-- A worker that is stopped right after it claimed a command ends its loop and publishes nothing, and
-- the command is not lost: its row stays as the claim left it, running under the worker's lease, and
-- a sweep that commits once the lease has run out puts it back into the queue.
pub stopped-requeued :
    (worker : Text) (lease : ℕ) (round : Round) (w : World) (cmd : Command) (now : ℕ)
    → Rising 0 w.table.next_id w.table.rows
    → round.stopped ≡ false
    → round.claim_commit ≡ committed
    → round.stopped_after_claim ≡ true
    → (claim committed worker lease round.claimed_at w.table).1 ≡ some (some cmd)
    → round.claimed_at + lease < now
    → ((run_round worker lease round w).1 ≡ false)
      × ((run_round worker lease round w).0.published ≡ w.published)
      × (get_row cmd.id (run_round worker lease round w).0.table.rows ≡ some cmd)
      × (cmd.status ≡ running)
      × (cmd.lease_until ≡ some (round.claimed_at + lease))
      × (get_row cmd.id (step committed now (run_round worker lease round w).0.table sweeps).rows
          ≡ some (record cmd {
            status = queued;
            worker_id = [];
            started_at = none;
            lease_until = none;
          }))
unfolding run_round claim_round with_claim after_claim step requeued_row
stopped-requeued worker lease round w cmd now rising go commit stop got late =
    let (row, on, until) = claimed_row worker lease round.claimed_at w.table cmd rising got in
    let t = (claim committed worker lease round.claimed_at w.table).0 in
    rw (go, commit, got, stop)
      (
        refl,
        refl,
        row,
        on,
        until,
        get_row-sweep_rows cmd.id now t.rows cmd row (late_is_expired now _ cmd on until late),
      )
