-- ===== src/Commands/Queue/Claiming.antt =====
-- Which command a worker gets: the soonest of those queued, and nobody else's.
use sonarr.Common.{
  ℕ, ◌+◌, ◌<◌, ◌≤◌, true, false, List, [], ◌∷◌, Option, none, some, Text, ◌≡◌, refl, ap, ◌⊎◌, inl,
  inr, arith, In, All, Option-cases, Bool-cases,
}
use sonarr.Commands.Command.{Command}
use sonarr.Commands.Queue.{
  Table, committed, is_queued, update_row, get_row, sooner, best, select_next, mark_running,
  claim_next, claim,
}
use sonarr.Commands.Queue.Rows.{Rising, get_row-In, get_row-update_row}

-- No queued row is sooner than `b`.
abbrev pub IsSoonest : Command → List Command → Type 0
IsSoonest b = All (λ q. is_queued q.status ≡ true → sooner q b ≡ false)

-- What `select_next` may answer.
abbrev pub Selects : List Command → Option Command → Type 0
Selects rs none = All (λ q. is_queued q.status ≡ false) rs
Selects rs (some r) = In r rs × (is_queued r.status ≡ true) × IsSoonest r rs

sooner_trans : (a b c : Command) → sooner a b ≡ false → sooner b c ≡ false → sooner a c ≡ false
unfolding sooner
sooner_trans a b c h k = ground arith

sooner-asym : (a b : Command) → sooner a b ≡ true → sooner b a ≡ false
unfolding sooner
sooner-asym a b h = ground arith

sooner_irrefl : (a : Command) → sooner a a ≡ false
unfolding sooner
sooner_irrefl a = ground arith

IsSoonest-trans :
    (b c : Command) (rs : List Command) → sooner b c ≡ false → IsSoonest b rs → IsSoonest c rs
IsSoonest-trans b c [] e h = tt
IsSoonest-trans b c (q ∷ rs) e h =
    ((λ on. sooner_trans q b c (h.0 on) e), IsSoonest-trans b c rs e h.1)

IsSoonest-none :
    (b : Command) (rs : List Command) → All (λ q. is_queued q.status ≡ false) rs → IsSoonest b rs
IsSoonest-none b [] h = tt
IsSoonest-none b (q ∷ rs) h = ((λ on. cc), IsSoonest-none b rs h.1)

best-Selects :
    (r : Command) (rs : List Command) (o : Option Command)
    → is_queued r.status ≡ true
    → Selects rs o
    → Selects (r ∷ rs) (best r o)
unfolding best
best-Selects r rs none on h = (inl refl, on, ((λ _. sooner_irrefl r), IsSoonest-none r rs h))
best-Selects r rs (some b) on h = elim (Bool-cases (sooner b r)) [
  | inl e ↦ rw e (inr h.0, h.1, ((λ _. sooner-asym b r e), h.2))
  | inr e ↦ rw e (inl refl, on, ((λ _. sooner_irrefl r), IsSoonest-trans b r rs e h.2))
]

skip-Selects :
    (r : Command) (rs : List Command) (o : Option Command)
    → is_queued r.status ≡ false
    → Selects rs o
    → Selects (r ∷ rs) o
skip-Selects r rs none off h = (off, h)
skip-Selects r rs (some b) off h = (inr h.0, h.1, ((λ on. cc), h.2))

pub select_next-Selects : (rs : List Command) → Selects rs (select_next rs)
unfolding select_next
select_next-Selects [] = tt
select_next-Selects (r ∷ rs) = elim (Bool-cases (is_queued r.status)) [
  | inl on ↦ rw on (best-Selects r rs (select_next rs) on (select_next-Selects rs))
  | inr off ↦ rw off (skip-Selects r rs (select_next rs) off (select_next-Selects rs))
]

-- A row comes no later than another: its priority number is smaller, or the same and it is as old.
abbrev pub NoLater : Command → Command → Type 0
NoLater b q = (b.priority < q.priority) ⊎ ((b.priority ≡ q.priority) × (b.queued_at ≤ q.queued_at))

sooner-NoLater : (q b : Command) → sooner q b ≡ false → NoLater b q
unfolding sooner
sooner-NoLater q b h = ground arith

abbrev pub IsFirst : Command → List Command → Type 0
IsFirst b = All (λ q. is_queued q.status ≡ true → NoLater b q)

soonest-IsFirst : (b : Command) (rs : List Command) → IsSoonest b rs → IsFirst b rs
soonest-IsFirst b [] h = tt
soonest-IsFirst b (q ∷ rs) h = ((λ on. sooner-NoLater q b (h.0 on)), soonest-IsFirst b rs h.1)

-- The row `r` is taken: it is queued and no queued row is sooner; the worker gets it as running
-- under its own lease, which is all that changes in the table.
abbrev pub Takes : Text → ℕ → ℕ → Table → Table × Option (Option Command) → Command → Type 0
Takes worker lease now t res r =
    In r t.rows
    × (is_queued r.status ≡ true)
    × IsFirst r t.rows
    × (res.1 ≡ some (some (mark_running worker (now + lease) now r)))
    × (res.0 ≡ record t { rows = update_row r.id (mark_running worker (now + lease) now) t.rows })

pub get_row-mark_running :
    (worker : Text) (lease now : ℕ) (t : Table) (r : Command)
    → Rising 0 t.next_id t.rows
    → In r t.rows
    → get_row r.id (update_row r.id (mark_running worker (now + lease) now) t.rows)
      ≡ some (mark_running worker (now + lease) now r)
unfolding mark_running
get_row-mark_running worker lease now t r h m = ground (
  arith,
  get_row-update_row r.id r.id (mark_running worker (now + lease) now) t.rows (λ x. refl),
  get_row-In 0 t.next_id r t.rows h m,
)

-- A claim finds nothing exactly where no row is queued, and leaves the table alone; otherwise it
-- takes a row that no queued row precedes in priority and age.
pub claim_lem :
    (worker : Text) (lease now : ℕ) (t : Table)
    → Rising 0 t.next_id t.rows
    → (All (λ q. is_queued q.status ≡ false) t.rows
        × (claim committed worker lease now t ≡ (t, some none)))
      ⊎ ((r : Command) × Takes worker lease now t (claim committed worker lease now t) r)
unfolding claim
claim_lem worker lease now t h = elim (Option-cases (select_next t.rows)) [
  | inl e ↦ inl (rw e at (select_next-Selects t.rows), rw (e, claim))
  | inr (r, e) ↦
      let s : Selects t.rows (some r) = rw e at (select_next-Selects t.rows) in
      inr (
        r,
        (
          s.0,
          s.1,
          soonest-IsFirst r t.rows s.2,
          rw (e, claim_next) (ap (λ c. some c) (get_row-mark_running worker lease now t r h s.0)),
          rw (e, claim_next),
        ),
      )
]
