-- ===== src/Library/MonitorMode/Effect.antt =====
-- What a monitor mode does to the episode table.
use sonarr.Common.{
  ℕ, ◌==◌, ==_iff, Text, Bool, true, List, [], ◌∷◌, some, ◌≡◌, ◌≢◌, inl, inr, refl, sym, ap, ◌∙◌,
  arith, map, if◌then◌else◌, All, All-In, In, Bool-cases,
}
use sonarr.Library.Listing.{list_for_series-In, In-list_for_series}
use sonarr.Library.{Write, saved, Episode, list_for_series}
use sonarr.Library.MonitorMode.{
  Mode, mode_of, decide, max_season_of, set_monitored, finished, set_each, apply_decided,
  apply_monitor_mode,
}

-- The ids are a key of the table.
abbrev pub HasKey : List Episode → Type 0
HasKey [] = Unit
HasKey (e ∷ rows) = All (λ x. x.id ≢ e.id) rows × HasKey rows

HasKey-eq :
    (rows : List Episode) (a b : Episode)
    → HasKey rows
    → In a rows
    → In b rows
    → a.id ≡ b.id
    → a ≡ b
HasKey-eq [] a b k m n e = absurd m
HasKey-eq (x ∷ rows) a b k (inl p) (inl q) e = p ∙ sym q
HasKey-eq (x ∷ rows) a b k (inl p) (inr n) e =
    absurd (All-In (λ y. y.id ≢ x.id) b rows k.0 n (sym e ∙ ap (λ y. y.id) p))
HasKey-eq (x ∷ rows) a b k (inr m) (inl q) e =
    absurd (All-In (λ y. y.id ≢ x.id) a rows k.0 m (e ∙ ap (λ y. y.id) q))
HasKey-eq (x ∷ rows) a b k (inr m) (inr n) e = HasKey-eq rows a b k.1 m n e

map_ext :
    (f g : Episode → Episode) (rows : List Episode)
    → ((r : Episode) → In r rows → f r ≡ g r)
    → map f rows ≡ map g rows
map_ext f g [] h = refl
map_ext f g (r ∷ rows) h = cc (h r (inl refl), map_ext f g rows (λ x m. h x (inr m)))

module _ (writes : ℕ → Write) (want : Episode → Bool) (succeed : (id : ℕ) → writes id ≡ saved) where
  -- What the updates for a list of episodes make of one row.
  assign : List Episode → Episode → Episode
  assign [] r = r
  assign (e ∷ eps) r = assign eps (if r.id == e.id then record r { monitored = want e } else r)

  map-assign :
      (e : Episode) (eps rows : List Episode)
      → map (assign eps) (set_monitored e.id (want e) rows) ≡ map (assign (e ∷ eps)) rows
  unfolding assign set_monitored
  map-assign e eps [] = refl
  map-assign e eps (r ∷ rows) = ap (λ z. assign (e ∷ eps) r ∷ z) (map-assign e eps rows)

  map_self : (rows : List Episode) → map (assign []) rows ≡ rows
  unfolding assign
  map_self [] = refl
  map_self (r ∷ rows) = ap (λ z. r ∷ z) (map_self rows)

  set_each_lem :
      (eps rows : List Episode) → set_each writes want eps rows ≡ (map (assign eps) rows, finished)
  unfolding set_each
  set_each_lem [] rows = ap (λ z. (z, finished)) (sym (map_self rows))
  set_each_lem (e ∷ eps) rows = rw (succeed e.id) (
      set_each_lem eps (set_monitored e.id (want e) rows)
      ∙ ap (λ z. (z, finished)) (map-assign e eps rows))

  -- Every episode of the list with the row's id has the wanted flag.
  abbrev Agrees : Bool → ℕ → List Episode → Type 0
  Agrees b id eps = (e : Episode) → In e eps → id ≡ e.id → want e ≡ b

  assign-again :
      (b : Bool) (r : Episode) (eps : List Episode)
      → Agrees b r.id eps
      → assign eps (record r { monitored = b }) ≡ record r { monitored = b }
  unfolding assign
  assign-again b r [] h = refl
  assign-again b r (e ∷ eps) h = elim (Bool-cases (r.id == e.id)) [
    | inl q ↦
        rw (q, h e (inl refl) ((==_iff r.id e.id).0 q)) (assign-again b r eps (λ x m. h x (inr m)))
    | inr q ↦ rw q (assign-again b r eps (λ x m. h x (inr m)))
  ]

  assign-In :
      (b : Bool) (r x : Episode) (eps : List Episode)
      → Agrees b r.id eps
      → In x eps
      → r.id ≡ x.id
      → assign eps r ≡ record r { monitored = b }
  unfolding assign
  assign-In b r x [] h m i = absurd m
  assign-In b r x (e ∷ eps) h m i = elim (Bool-cases (r.id == e.id)) [
    | inl q ↦
        rw (q, h e (inl refl) ((==_iff r.id e.id).0 q)) (assign-again b r eps (λ y n. h y (inr n)))
    | inr q ↦ rw q (assign-In b r x eps (λ y n. h y (inr n)) (ground arith) i)
  ]

  assign-others :
      (r : Episode) (eps : List Episode)
      → ((e : Episode) → In e eps → r.id ≢ e.id)
      → assign eps r ≡ r
  unfolding assign
  assign-others r [] h = refl
  assign-others r (e ∷ eps) h = elim (Bool-cases (r.id == e.id)) [
    | inl q ↦ absurd (h e (inl refl) ((==_iff r.id e.id).0 q))
    | inr q ↦ rw q (assign-others r eps (λ y n. h y (inr n)))
  ]

  assign_listed :
      (series_id : ℕ) (rows : List Episode) (r : Episode)
      → HasKey rows
      → In r rows
      → assign (list_for_series series_id rows) r
        ≡ (if r.series_id == series_id then record r { monitored = want r } else r)
  assign_listed series_id rows r k m = elim (Bool-cases (r.series_id == series_id)) [
    | inl q ↦ simp q (
        assign-In (want r) r r (list_for_series series_id rows)
          (λ e n i.
            ap want (sym (HasKey-eq rows r e k m (list_for_series-In series_id e rows n).0 i)))
          (In-list_for_series series_id r rows m ((==_iff r.series_id series_id).0 q)) refl)
    | inr q ↦ simp q (
        assign-others r (list_for_series series_id rows) (λ e n i.
          let (l, s) = list_for_series-In series_id e rows n in
          let same = HasKey-eq rows r e k m l i in
          cc (q, (==_iff r.series_id series_id).1 (ap (λ x. x.series_id) same ∙ s))))
  ]

apply_decided_eq :
    (writes : ℕ → Write) (m : Mode) (now : ℕ) (eps rows : List Episode)
    → apply_decided writes (some m) now eps rows
      ≡ set_each writes (decide m (max_season_of 0 eps) now) eps rows
unfolding apply_decided set_each
apply_decided_eq writes m now [] rows = refl
apply_decided_eq writes m now (e ∷ eps) rows = refl

-- Where every statement succeeds, the updates give the rows of the series the decided flag.
pub apply_monitor_mode_lem :
    (writes : ℕ → Write) (now series_id : ℕ) (mode : Text) (m : Mode) (rows : List Episode)
    → HasKey rows
    → ((id : ℕ) → writes id ≡ saved)
    → mode_of mode ≡ some m
    → apply_monitor_mode true writes now series_id mode rows ≡ (
      map
          (λ r.
            if r.series_id == series_id
            then record r {
              monitored = decide m (max_season_of 0 (list_for_series series_id rows)) now r;
            }
            else r)
          rows,
      finished,
    )
unfolding apply_monitor_mode
apply_monitor_mode_lem writes now series_id mode m rows k succeed e =
    let want = decide m (max_season_of 0 (list_for_series series_id rows)) now in
    rw e (
      apply_decided_eq writes m now (list_for_series series_id rows) rows
      ∙ set_each_lem writes want succeed (list_for_series series_id rows) rows
      ∙ ap (λ z. (z, finished))
          (map_ext _ _ rows (λ r i. assign_listed writes want succeed series_id rows r k i)))
