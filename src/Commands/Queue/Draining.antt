-- ===== src/Commands/Queue/Draining.antt =====
-- How claims empty the queue.
use sonarr.Common.{
  ℕ, suc, ◌+◌, ◌-◌, ◌≤◌, ◌==◌, ==_iff, true, false, List, [], ◌∷◌, Option, Text, ◌≡◌, refl, ap, sym,
  ◌∙◌, subst, inl, inr, arith, In, All, length, if◌then◌else◌,
}
use sonarr.Commands.Command.{Command}
use sonarr.Commands.Queue.{Table, committed, is_queued, update_row, mark_running, claim}
use sonarr.Commands.Queue.Rows.{Rising, Rising-update_row, In-le}
use sonarr.Commands.Queue.Claiming.{claim_lem}

-- How many rows are queued.
unfoldable pub queued_count : List Command → ℕ
queued_count [] = 0
queued_count (r ∷ rs) = let rest = queued_count rs in if is_queued r.status then suc rest else rest

-- A claim by some worker, for some lease, at some time.
pub record Claim : Type 0 where
  pub worker : Text
  pub lease : ℕ
  pub now : ℕ

-- The table after claims that commit, one after the other.
unfoldable pub claim_all : List Claim → Table → Table
claim_all [] t = t
claim_all (c ∷ cs) t = claim_all cs (claim committed c.worker c.lease c.now t).0

none_queued : (rs : List Command) → All (λ q. is_queued q.status ≡ false) rs → queued_count rs ≡ 0
unfolding queued_count
none_queued [] h = refl
none_queued (r ∷ rs) h = ground (arith, none_queued rs h.1)

-- No row has an id below the others.
update_row_below :
    (id lo hi : ℕ) (f : Command → Command) (rs : List Command)
    → suc id ≤ lo
    → Rising lo hi rs
    → update_row id f rs ≡ rs
unfolding update_row
update_row_below id lo hi f [] l k = refl
update_row_below id lo hi f (x ∷ rs) l k =
    simp (apart x.id id (omega arith), update_row_below id (suc x.id) hi f rs (omega arith) k.1)
      refl
  where
    apart : (a b : ℕ) → suc b ≤ a → (a == b) ≡ false
    apart a b h = ground arith

count-take :
    (lo hi until now : ℕ) (worker : Text) (r : Command) (rs : List Command)
    → Rising lo hi rs
    → In r rs
    → is_queued r.status ≡ true
    → suc (queued_count (update_row r.id (mark_running worker until now) rs)) ≡ queued_count rs
unfolding queued_count update_row mark_running
count-take lo hi until now worker r [] h m q = absurd m
count-take lo hi until now worker r (x ∷ rs) h (inl e) q =
    subst
      (λ y.
        suc (queued_count (update_row y.id (mark_running worker until now) (x ∷ rs)))
        ≡ queued_count (x ∷ rs))
      (sym e)
      (simp
        (
          (==_iff x.id x.id).1 refl,
          ap (λ y. is_queued y.status) (sym e) ∙ q,
          update_row_below x.id (suc x.id) hi (mark_running worker until now) rs (omega arith) h.1,
        )
        refl)
count-take lo hi until now worker r (x ∷ rs) h (inr m) q =
    ground (
      arith,
      In-le (suc x.id) hi r rs h.1 m,
      count-take (suc x.id) hi until now worker r rs h.1 m q,
    )

claim-count :
    (c : Claim) (t : Table)
    → Rising 0 t.next_id t.rows
    → let t' = (claim committed c.worker c.lease c.now t).0 in
      (queued_count t'.rows ≡ queued_count t.rows - 1) × Rising 0 t'.next_id t'.rows
unfolding mark_running
claim-count c t h = elim (claim_lem c.worker c.lease c.now t h) [
  | inl (none_left, e) ↦
      subst (λ x. (queued_count x.rows ≡ queued_count t.rows - 1) × Rising 0 x.next_id x.rows)
        (sym (ap (λ (x : Table × Option (Option Command)). x.0) e))
        (omega (arith, none_queued t.rows none_left), h)
  | inr (r, (m, q, first, v, e)) ↦
      subst (λ x. (queued_count x.rows ≡ queued_count t.rows - 1) × Rising 0 x.next_id x.rows)
        (sym e)
        (
          omega (arith, count-take 0 t.next_id (c.now + c.lease) c.now c.worker r t.rows h m q),
          Rising-update_row 0 t.next_id r.id (mark_running c.worker (c.now + c.lease) c.now) t.rows
              (keeps c) h,
        )
]
  where
    keeps : (c : Claim) (r : Command) → (mark_running c.worker (c.now + c.lease) c.now r).id ≡ r.id
    keeps c r = refl

-- Claims that commit drain the queue: each takes one queued row while there is any, so as many claims
-- as there are queued rows leave none.
pub claim_all-drains :
    (cs : List Claim) (t : Table)
    → Rising 0 t.next_id t.rows
    → queued_count (claim_all cs t).rows ≡ queued_count t.rows - length cs
unfolding claim_all
claim_all-drains [] t h = omega arith
claim_all-drains (c ∷ cs) t h =
    let (e, k) = claim-count c t h in
    omega (arith, e, claim_all-drains cs (claim committed c.worker c.lease c.now t).0 k)
