-- ===== src/Library/MonitorMode/Seasons.antt =====
-- The highest season of a series.
use sonarr.Common.{
  ℕ, ◌==◌, ==_iff, ◌≤◌, ltb, ltb→lt, true, List, [], ◌∷◌, ◌≡◌, ◌≢◌, ◌⊎◌, ◌↔◌, inl, inr, refl, sym,
  arith, All, All-In, In, Bool-cases, subst,
}
use sonarr.Library.Listing.{list_for_series-In, In-list_for_series}
use sonarr.Library.{Episode, list_for_series}
use sonarr.Library.MonitorMode.{max_season_of}

-- No episode of the series is of a later season.
abbrev pub IsLastSeason : ℕ → List Episode → Episode → Type 0
IsLastSeason series_id rows e =
    All (λ x. (x.series_id ≢ series_id) ⊎ (x.season_number ≤ e.season_number)) rows

bounded :
    (n : ℕ) (e : Episode) (eps : List Episode) (j k : ℕ)
    → j ≡ k
    → (n ≤ k) × All (λ x. x.season_number ≤ k) (e ∷ eps)
    → (n ≤ j) × All (λ x. x.season_number ≤ j) (e ∷ eps)
bounded n e eps j k q h = subst (λ i. (n ≤ i) × All (λ x. x.season_number ≤ i) (e ∷ eps)) (sym q) h

max_season-bound :
    (n : ℕ) (eps : List Episode)
    → (n ≤ max_season_of n eps) × All (λ x. x.season_number ≤ max_season_of n eps) eps
unfolding max_season_of
max_season-bound n [] = (omega arith, tt)
max_season-bound n (e ∷ eps) = elim (Bool-cases (ltb n e.season_number)) [
  | inl h ↦
      let (b, rest) = max_season-bound e.season_number eps in
      bounded n e eps _ _ (simp h refl) (omega (arith, ltb→lt n e.season_number h, b), (b, rest))
  | inr h ↦
      let (b, rest) = max_season-bound n eps in
      bounded n e eps _ _ (simp h refl) (b, (ground arith, rest))
]

-- The highest season is the start or that of an episode.
max_season-attained :
    (n : ℕ) (eps : List Episode)
    → (max_season_of n eps ≡ n)
      ⊎ ((x : Episode) × In x eps × (x.season_number ≡ max_season_of n eps))
unfolding max_season_of
max_season-attained n [] = inl refl
max_season-attained n (e ∷ eps) = elim (Bool-cases (ltb n e.season_number)) [
  | inl h ↦ simp h (elim (max_season-attained e.season_number eps) [
    | inl q ↦ inr (e, inl refl, sym q)
    | inr (x, i, q) ↦ inr (x, inr i, q)
  ])
  | inr h ↦
      simp h
        (elim (max_season-attained n eps) [ inl q ↦ inl q | inr (x, i, q) ↦ inr (x, inr i, q) ])
]

pub max_season_iff :
    (eps : List Episode) (e : Episode)
    → In e eps
    → ((e.season_number == max_season_of 0 eps) ≡ true)
      ↔ All (λ x. x.season_number ≤ e.season_number) eps
max_season_iff eps e m =
    let (zero_le, bound) = max_season-bound 0 eps in
    let own = All-In (λ x. x.season_number ≤ max_season_of 0 eps) e eps bound m in
    (
      λ h. rw ((==_iff e.season_number (max_season_of 0 eps)).0 h) bound,
      λ h. (==_iff e.season_number (max_season_of 0 eps)).1 (elim (max_season-attained 0 eps) [
        | inl q ↦ omega arith
        | inr (x, i, q) ↦
            let le = All-In (λ y. y.season_number ≤ e.season_number) x eps h i in omega arith
      ]),
    )

every_member :
    (P : Episode → Type 0) (eps : List Episode) → ((x : Episode) → In x eps → P x) → All P eps
every_member P [] h = tt
every_member P (e ∷ eps) h = (h e (inl refl), every_member P eps (λ x m. h x (inr m)))

pub list_for_series-IsLastSeason :
    (series_id : ℕ) (rows : List Episode) (e : Episode)
    → All (λ x. x.season_number ≤ e.season_number) (list_for_series series_id rows)
      ↔ IsLastSeason series_id rows e
list_for_series-IsLastSeason series_id rows e = (
  λ h. every_member _ rows (λ x m. elim (Bool-cases (x.series_id == series_id)) [
    | inl q ↦ inr (
        All-In (λ y. y.season_number ≤ e.season_number) x (list_for_series series_id rows) h
          (In-list_for_series series_id x rows m ((==_iff x.series_id series_id).0 q)))
    | inr q ↦ inl (λ k. cc (q, (==_iff x.series_id series_id).1 k))
  ]),
  λ h. every_member _ (list_for_series series_id rows) (λ x m.
      let (i, q) = list_for_series-In series_id x rows m in
      elim (All-In (λ y. (y.series_id ≢ series_id) ⊎ (y.season_number ≤ e.season_number)) x rows h
        i) [ inl n ↦ absurd (n q) | inr l ↦ l ]),
)
