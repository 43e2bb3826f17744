-- ===== src/Library/MonitorMode/Choice.antt =====
-- Which episodes a monitor mode asks for.
use sonarr.Common.{
  ℕ, ◌==◌, ==_iff, ◌<◌, ltb→lt, Text, codes, text_eq, true, false, List, [], ◌∷◌, Option, none,
  some, ◌≡◌, ◌≢◌, ◌⊎◌, ◌↔◌, inl, inr, refl, sym, ap, ◌∙◌, arith, map, if◌then◌else◌, In, Bool-cases,
  not,
}
use mathlib.Core.Option.{some-injective}
use sonarr.Library.Listing.{In-list_for_series}
use sonarr.Library.{Write, saved, Episode, list_for_series}
use sonarr.Library.MonitorMode.Seasons.{IsLastSeason, max_season_iff, list_for_series-IsLastSeason}
use sonarr.Library.MonitorMode.Effect.{HasKey, apply_monitor_mode_lem}
use sonarr.Library.MonitorMode.{
  Mode, all, none_at_all, future, missing, existing, pilot, first_season, last_season, mode_of,
  is_after, has_file, decide, max_season_of, finished, apply_monitor_mode,
}

-- The name of a mode; the empty text is another one for "all".
abbrev pub name_of : Mode → Text
name_of all = codes "all"
name_of none_at_all = codes "none"
name_of future = codes "future"
name_of missing = codes "missing"
name_of existing = codes "existing"
name_of pilot = codes "pilot"
name_of first_season = codes "firstSeason"
name_of last_season = codes "lastSeason"

mode_of-name_of : (m : Mode) → mode_of (name_of m) ≡ some m
unfolding mode_of text_eq
mode_of-name_of all = refl
mode_of-name_of none_at_all = refl
mode_of-name_of future = refl
mode_of-name_of missing = refl
mode_of-name_of existing = refl
mode_of-name_of pilot = refl
mode_of-name_of first_season = refl
mode_of-name_of last_season = refl

mode_of-empty : mode_of [] ≡ some all
unfolding mode_of text_eq
mode_of-empty = refl

-- The mode asks for an episode of the series to be monitored.
abbrev pub IsWanted : Mode → ℕ → ℕ → List Episode → Episode → Type 0
IsWanted all now series_id rows e = Unit
IsWanted none_at_all now series_id rows e = ⊥
IsWanted future now series_id rows e = (date : ℕ) × (e.air_date_utc ≡ some date) × (now < date)
IsWanted missing now series_id rows e = e.episode_file_id ≡ none
IsWanted existing now series_id rows e = (file : ℕ) × (e.episode_file_id ≡ some file)
IsWanted pilot now series_id rows e = (e.season_number ≡ 1) × (e.episode_number ≡ 1)
IsWanted first_season now series_id rows e = e.season_number ≡ 1
IsWanted last_season now series_id rows e = IsLastSeason series_id rows e

is_after_iff :
    (now : ℕ) (o : Option ℕ)
    → (is_after now o ≡ true) ↔ ((date : ℕ) × (o ≡ some date) × (now < date))
unfolding is_after
is_after_iff now none = ground arith
is_after_iff now (some date) =
    (λ h. (date, refl, ltb→lt now date h), λ h. ground (arith, some-injective date h.0 h.1))

has_file_iff : (o : Option ℕ) → (has_file o ≡ true) ↔ ((file : ℕ) × (o ≡ some file))
unfolding has_file
has_file_iff none = ground arith
has_file_iff (some file) = (λ h. (file, refl), λ h. refl)

no_file_iff : (o : Option ℕ) → (not (has_file o) ≡ true) ↔ (o ≡ none)
unfolding has_file
no_file_iff none = ground arith
no_file_iff (some file) = ground arith

-- What `decide` answers for an episode of the series is what the mode asks for.
decide_iff :
    (m : Mode) (now series_id : ℕ) (rows : List Episode) (e : Episode)
    → In e rows
    → e.series_id ≡ series_id
    → (decide m (max_season_of 0 (list_for_series series_id rows)) now e ≡ true)
      ↔ IsWanted m now series_id rows e
unfolding decide
decide_iff all now series_id rows e i q = (λ h. tt, λ h. refl)
decide_iff none_at_all now series_id rows e i q = (λ h. cc, λ h. absurd h)
decide_iff future now series_id rows e i q = is_after_iff now e.air_date_utc
decide_iff missing now series_id rows e i q = no_file_iff e.episode_file_id
decide_iff existing now series_id rows e i q = has_file_iff e.episode_file_id
decide_iff pilot now series_id rows e i q = ground arith
decide_iff first_season now series_id rows e i q = ==_iff e.season_number 1
decide_iff last_season now series_id rows e i q =
    let (to_all, from_all) =
      max_season_iff (list_for_series series_id rows) e (In-list_for_series series_id e rows i q) in
    let (to_last, from_last) = list_for_series-IsLastSeason series_id rows e in
    (λ h. to_last (to_all h), λ h. from_all (from_last h))

-- A row after the call: that of another series is as it was, and that of the series differs at most
-- in its flag, which is set exactly where the mode asks for it.
abbrev pub IsMarked : Mode → ℕ → ℕ → List Episode → Episode → Episode → Type 0
IsMarked m now series_id rows r r' =
    ((r.series_id ≢ series_id) × (r' ≡ r))
    ⊎ ((r.series_id ≡ series_id)
        × (((r' ≡ record r { monitored = true }) × IsWanted m now series_id rows r)
            ⊎ ((r' ≡ record r { monitored = false }) × ¬ IsWanted m now series_id rows r)))

-- Row by row.
abbrev pub AllMarked : (Episode → Episode → Type 0) → List Episode → List Episode → Type 0
AllMarked P [] [] = Unit
AllMarked P (r ∷ rows) (x ∷ xs) = P r x × AllMarked P rows xs
AllMarked P _ _ = ⊥

AllMarked-map :
    (P : Episode → Episode → Type 0) (f : Episode → Episode) (rows : List Episode)
    → ((r : Episode) → In r rows → P r (f r))
    → AllMarked P rows (map f rows)
AllMarked-map P f [] h = tt
AllMarked-map P f (r ∷ rows) h = (h r (inl refl), AllMarked-map P f rows (λ x m. h x (inr m)))

row-IsMarked :
    (m : Mode) (now series_id : ℕ) (rows : List Episode) (r : Episode)
    → In r rows
    → IsMarked m now series_id rows r (
        if r.series_id == series_id
        then record r {
          monitored = decide m (max_season_of 0 (list_for_series series_id rows)) now r;
        }
        else r)
row-IsMarked m now series_id rows r i = elim (Bool-cases (r.series_id == series_id)) [
  | inr q ↦ simp q (inl (λ k. cc (q, (==_iff r.series_id series_id).1 k), refl))
  | inl q ↦
      let same = (==_iff r.series_id series_id).0 q in
      let (to_wanted, from_wanted) = decide_iff m now series_id rows r i same in
      let b = decide m (max_season_of 0 (list_for_series series_id rows)) now r in
      elim (Bool-cases b) [
        | inl d ↦ simp q (inr (same, inl (ap (λ x. record r { monitored = x }) d, to_wanted d)))
        | inr d ↦
            simp q
              (inr (same, inr (ap (λ x. record r { monitored = x }) d, λ w. cc (d, from_wanted w))))
      ]
]

-- Where every statement succeeds, a known mode, the empty text standing for "all", gives each
-- episode of the series the flag that the mode asks for and leaves every other episode alone: all,
-- none, those that air after now, those without a file, those with one, episode 1 of season 1, those
-- of season 1, and those of the highest season of the series.
pub apply_monitor_mode-AllMarked :
    (writes : ℕ → Write) (now series_id : ℕ) (mode : Text) (m : Mode) (rows : List Episode)
    → HasKey rows
    → ((id : ℕ) → writes id ≡ saved)
    → (mode ≡ name_of m) ⊎ ((mode ≡ []) × (m ≡ all))
    → ((apply_monitor_mode true writes now series_id mode rows).1 ≡ finished)
      × AllMarked
          (IsMarked m now series_id rows)
          rows
          (apply_monitor_mode true writes now series_id mode rows).0
apply_monitor_mode-AllMarked writes now series_id mode m rows k succeed named =
    let known : mode_of mode ≡ some m = elim named [
      | inl e ↦ ap mode_of e ∙ mode_of-name_of m
      | inr (e, f) ↦ ap mode_of e ∙ mode_of-empty ∙ ap some (sym f)
    ] in
    rw (apply_monitor_mode_lem writes now series_id mode m rows k succeed known)
      (refl, AllMarked-map _ _ rows (λ r i. row-IsMarked m now series_id rows r i))
