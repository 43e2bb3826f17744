-- ===== src/Commands/Queue/Steps.antt =====
-- How a call of the queue carries a predicate on rows from one table to the next.
use sonarr.Common.{
  ℕ, ◌+◌, true, List, [], ◌∷◌, ◌++◌, Option, none, some, Text, ◌≡◌, refl, inl, inr, arith, In, All,
  if◌then◌else◌, Bool-cases,
}
use sonarr.Common.{◌==◌}
use sonarr.Commands.Command.{Command, Trigger}
use sonarr.Commands.Queue.{
  Table, Commit, committed, rolled_back, unreported, is_queued, update_row, new_row, select_next,
  mark_running, claim_found, completed_row, failed_row, refreshed_row, is_expired, requeued_row,
  sweep_rows, delete_rows, Call, enqueues, claims, completes, fails, refreshes, sweeps, deletes,
  step,
}
use sonarr.Commands.Queue.Rows.{Rising, get_row-In}
use sonarr.Commands.Queue.Claiming.{Selects, select_next-Selects}

-- A call that is rolled back changes nothing.
pub step-rolled_back : (now : ℕ) (t : Table) (c : Call) → step rolled_back now t c ≡ t
unfolding step
step-rolled_back now t (enqueues name body priority trigger key) = refl
step-rolled_back now t _ = refl

-- A call whose commit goes unreported changes what a committed one does.
pub step-unreported :
    (now : ℕ) (t : Table) (c : Call) → step unreported now t c ≡ step committed now t c
unfolding step
step-unreported now t (enqueues name body priority trigger key) = refl
step-unreported now t _ = refl

module _ (P : Command → Type 0) where
  All-append : (rs : List Command) (r : Command) → All P rs → P r → All P (rs ++ r ∷ [])
  All-append [] r h p = (p, tt)
  All-append (x ∷ rs) r h p = (h.0, All-append rs r h.1 p)

  All-update_row :
      (id : ℕ) (f : Command → Command) (rs : List Command)
      → ((x : Command) → In x rs → x.id ≡ id → P x → P (f x))
      → All P rs
      → All P (update_row id f rs)
  unfolding update_row
  All-update_row id f [] k h = tt
  All-update_row id f (r ∷ rs) k h = (head, All-update_row id f rs (λ x m. k x (inr m)) h.1)
    where
      head : P (if r.id == id then f r else r)
      head = elim (Bool-cases (r.id == id)) [
        | inl e ↦ rw e (k r (inl refl) (ground arith) h.0)
        | inr e ↦ rw e h.0
      ]

  All-sweep_rows :
      (now : ℕ) (rs : List Command)
      → ((x : Command) → is_expired now x ≡ true → P x → P (requeued_row x))
      → All P rs
      → All P (sweep_rows now rs).0
  unfolding sweep_rows
  All-sweep_rows now [] k h = tt
  All-sweep_rows now (r ∷ rs) k h = elim (Bool-cases (is_expired now r)) [
    | inl e ↦ rw e (k r e h.0, All-sweep_rows now rs k h.1)
    | inr e ↦ rw e (h.0, All-sweep_rows now rs k h.1)
  ]

  All-delete_rows : (cutoff : ℕ) (rs : List Command) → All P rs → All P (delete_rows cutoff rs).0
  unfolding delete_rows
  All-delete_rows cutoff [] h = tt
  All-delete_rows cutoff (r ∷ rs) h = ground (arith, All-delete_rows cutoff rs h.1)

  -- What a predicate has to withstand, for a table, a time and a call.
  pub record IsStable (t : Table) (now : ℕ) (c : Call) : Type 0 where
    pub fresh :
        (name body : Text) (priority : ℕ) (trigger : Trigger) (key : Text)
        → P (new_row t.next_id name body priority trigger key now)
    pub taken :
        (r : Command) (worker : Text) (lease : ℕ)
        → is_queued r.status ≡ true
        → P r
        → P (mark_running worker (now + lease) now r)
    pub finished :
        (r : Command) (duration : ℕ) (result message : Text)
        → P r
        → P (completed_row duration result message now r)
    pub broken :
        (r : Command) (duration : ℕ) (exception message : Text)
        → P r
        → P (failed_row duration exception message now r)
    pub refreshed :
        (id lease : ℕ) (r : Command)
        → c ≡ refreshes id lease
        → r.id ≡ id
        → P r
        → P (refreshed_row (now + lease) r)
    pub requeued : (r : Command) → is_expired now r ≡ true → P r → P (requeued_row r)

  module _ (t : Table) (now : ℕ) (rising : Rising 0 t.next_id t.rows) where
    same_row : (x r : Command) → In x t.rows → In r t.rows → x.id ≡ r.id → x ≡ r
    same_row x r m n e =
        ground (
          arith,
          get_row-In 0 t.next_id x t.rows rising m,
          get_row-In 0 t.next_id r t.rows rising n,
        )

    claim_found-All :
        (worker : Text) (lease : ℕ) (o : Option Command)
        → IsStable t now (claims worker lease)
        → Selects t.rows o
        → All P t.rows
        → All P (claim_found worker lease now t o).0.rows
    unfolding claim_found
    claim_found-All worker lease none s sel h = h
    claim_found-All worker lease (some r) s sel h =
        All-update_row r.id (mark_running worker (now + lease) now) t.rows
          (λ x m e p. s.taken x worker lease (rw (same_row x r m sel.0 e) sel.1) p) h

    call-All : (c : Call) → IsStable t now c → All P t.rows → All P (step committed now t c).rows
    unfolding step
    call-All (enqueues name body priority trigger key) s h =
        All-append t.rows _ h (s.fresh name body priority trigger key)
    call-All (claims worker lease) s h =
        claim_found-All worker lease (select_next t.rows) s (select_next-Selects t.rows) h
    call-All (completes id duration result message) s h =
        All-update_row id _ t.rows (λ x m e p. s.finished x duration result message p) h
    call-All (fails id duration exception message) s h =
        All-update_row id _ t.rows (λ x m e p. s.broken x duration exception message p) h
    call-All (refreshes id lease) s h =
        All-update_row id _ t.rows (λ x m e p. s.refreshed id lease x refl e p) h
    call-All sweeps s h = All-sweep_rows now t.rows s.requeued h
    call-All (deletes cutoff) s h = All-delete_rows cutoff t.rows h

    pub step-All :
        (commit : Commit) (c : Call)
        → IsStable t now c
        → All P t.rows
        → All P (step commit now t c).rows
    step-All committed c s h = call-All c s h
    step-All rolled_back c s h = rw (step-rolled_back now t c) h
    step-All unreported c s h = rw (step-unreported now t c) (call-All c s h)
