-- ===== src/Commands/Queue/Counting.antt =====
-- How many active commands a key has, and what an enqueue and a sweep make of them.
use sonarr.Common.{
  ℕ, suc, ◌+◌, ◌<◌, Bool, ◌&&◌, List, [], ◌∷◌, ◌++◌, none, some, Text, text_eq, text_eq_iff, ◌≡◌,
  ◌≢◌, refl, arith, if◌then◌else◌, text_eq_self, find, inl, ◌⊎◌,
}
use sonarr.Commands.Command.{Command, scheduled, priority_normal}
use sonarr.Commands.Queue.{
  Table, Commit, committed, rolled_back, unreported, is_active, enqueue, find_duplicate, new_row,
  sweep_rows, is_expired, requeued_row, sweep_expired_leases,
}

abbrev pub has_key : Text → Command → Bool
has_key key r = text_eq r.dedup_key key && is_active r.status

-- How many active commands have the key.
unfoldable pub active_count : Text → List Command → ℕ
active_count key [] = 0
active_count key (r ∷ rs) =
    let rest = active_count key rs in if has_key key r then suc rest else rest

active_count-append :
    (key : Text) (rs : List Command) (r : Command)
    → active_count key (rs ++ r ∷ []) ≡ active_count key rs + active_count key (r ∷ [])
unfolding active_count
active_count-append key [] r = omega arith
active_count-append key (x ∷ rs) r = ground (arith, active_count-append key rs r)

find-none :
    (key : Text) (rs : List Command) → find (has_key key) rs ≡ none → active_count key rs ≡ 0
unfolding active_count
find-none key [] h = refl
find-none key (r ∷ rs) h = ground (arith, find-none key rs)

pub find-some :
    (key : Text) (rs : List Command) (c : Command)
    → find (has_key key) rs ≡ some c
    → 0 < active_count key rs
unfolding active_count
find-some key [] c h = cc
find-some key (r ∷ rs) c h = ground (arith, find-some key rs c)

active_count-sweep_rows :
    (key : Text) (now : ℕ) (rs : List Command)
    → active_count key (sweep_rows now rs).0 ≡ active_count key rs
unfolding active_count sweep_rows is_expired requeued_row
active_count-sweep_rows key now [] = refl
active_count-sweep_rows key now (r ∷ rs) = ground (arith, active_count-sweep_rows key now rs)

pub active_count-sweep :
    (key : Text) (swept : Commit) (now : ℕ) (t : Table)
    → active_count key (sweep_expired_leases swept now t).0.rows ≡ active_count key t.rows
unfolding sweep_expired_leases
active_count-sweep key committed now t = active_count-sweep_rows key now t.rows
active_count-sweep key rolled_back now t = refl
active_count-sweep key unreported now t = active_count-sweep_rows key now t.rows

-- An enqueue under a key of its own adds no active command for a key, or the first one.
abbrev pub AddsFirst : Text → Text → ℕ → ℕ → Type 0
AddsFirst own key before after = (after ≡ before) ⊎ ((own ≡ key) × (before ≡ 0) × (after ≡ 1))

new_row_count :
    (name body own key : Text) (id now : ℕ)
    → active_count key (new_row id name body priority_normal scheduled own now ∷ [])
      ≡ (if text_eq own key then 1 else 0)
unfolding active_count new_row
new_row_count name body own key id now = ground arith

appended_count :
    (name body own key : Text) (t : Table) (now : ℕ)
    → find_duplicate own t ≡ none
    → AddsFirst own key (active_count key t.rows) (
        active_count key
          (t.rows ++ new_row t.next_id name body priority_normal scheduled own now ∷ []))
unfolding find_duplicate
appended_count name body own key t now h = ground (
  arith,
  active_count-append key t.rows (new_row t.next_id name body priority_normal scheduled own now),
  new_row_count name body own key t.next_id now,
  text_eq_iff own key,
  find-none own t.rows h,
)

pub enqueue_count :
    (commit : Commit) (name body own key : Text) (t : Table) (now : ℕ)
    → find_duplicate own t ≡ none
    → AddsFirst own key
        (active_count key t.rows)
        (active_count key (enqueue commit name body priority_normal scheduled own now t).0.rows)
unfolding enqueue
enqueue_count committed name body own key t now h = appended_count name body own key t now h
enqueue_count rolled_back name body own key t now h = inl refl
enqueue_count unreported name body own key t now h = appended_count name body own key t now h

appended_active :
    (name body own : Text) (t : Table) (now : ℕ)
    → 0
      < active_count own
          (t.rows ++ new_row t.next_id name body priority_normal scheduled own now ∷ [])
appended_active name body own t now = ground (
  arith,
  active_count-append own t.rows (new_row t.next_id name body priority_normal scheduled own now),
  new_row_count name body own own t.next_id now,
  text_eq_self own,
)

pub enqueue_active :
    (commit : Commit) (name body own : Text) (t : Table) (now : ℕ)
    → commit ≢ rolled_back
    → 0 < active_count own (enqueue commit name body priority_normal scheduled own now t).0.rows
unfolding enqueue
enqueue_active rolled_back name body own t now h = absurd (h refl)
enqueue_active committed name body own t now h = appended_active name body own t now
enqueue_active unreported name body own t now h = appended_active name body own t now
