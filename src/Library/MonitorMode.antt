-- ===== src/Library/MonitorMode.antt =====
-- internal/library/monitor_mode.go: `ApplyMonitorMode` over the episode table. Whether each
-- statement succeeds is given; times are natural numbers.
pub mod Choice
pub mod Effect
pub mod Seasons
use sonarr.Common.{
  ℕ, ◌==◌, ltb, Text, text_eq, codes, Bool, true, false, ◌&&◌, ◌||◌, List, [], ◌∷◌, Option, none,
  some, if◌then◌else◌, map, not,
}
use sonarr.Library.{Write, saved, saved_unreported, unsaved, Episode, list_for_series}

pub data Mode : Type 0 where
  all none_at_all future missing existing pilot first_season last_season : Mode

-- The cases of the `switch`.
unfoldable pub mode_of : Text → Option Mode
mode_of mode =
    if text_eq mode (codes "") || text_eq mode (codes "all")
    then some all
    else if text_eq mode (codes "none")
    then some none_at_all
    else if text_eq mode (codes "future")
    then some future
    else if text_eq mode (codes "missing")
    then some missing
    else if text_eq mode (codes "existing")
    then some existing
    else if text_eq mode (codes "pilot")
    then some pilot
    else if text_eq mode (codes "firstSeason")
    then some first_season
    else if text_eq mode (codes "lastSeason")
    then some last_season
    else none

unfoldable pub is_after : ℕ → Option ℕ → Bool
is_after now none = false
is_after now (some date) = ltb now date

unfoldable pub has_file : Option ℕ → Bool
has_file none = false
has_file (some file) = true

-- What `decide` answers for a known mode.
unfoldable pub decide : Mode → ℕ → ℕ → Episode → Bool
unfolding is_after has_file
decide all max_season now e = true
decide none_at_all max_season now e = false
decide future max_season now e = is_after now e.air_date_utc
decide missing max_season now e = not (has_file e.episode_file_id)
decide existing max_season now e = has_file e.episode_file_id
decide pilot max_season now e = (e.season_number == 1) && (e.episode_number == 1)
decide first_season max_season now e = e.season_number == 1
decide last_season max_season now e = e.season_number == max_season

-- The loop that finds the highest season.
unfoldable pub max_season_of : ℕ → List Episode → ℕ
max_season_of max_season [] = max_season
max_season_of max_season (e ∷ eps) =
    max_season_of (if ltb max_season e.season_number then e.season_number else max_season) eps

-- `UPDATE episodes SET monitored = ? WHERE id = ?`.
unfoldable pub set_monitored : ℕ → Bool → List Episode → List Episode
set_monitored id b = map (λ e. if e.id == id then record e { monitored = b } else e)

-- The returned error, or nil.
pub data Result : Type 0 where
  not_listed unknown_mode finished : Result
  not_set : ℕ → Result

-- `rest` is what the loop goes on to.
after_write :
    Write → ℕ → List Episode → List Episode → List Episode × Result → List Episode × Result
after_write saved id rows written rest = rest
after_write saved_unreported id rows written rest = (written, not_set id)
after_write unsaved id rows written rest = (rows, not_set id)

module _ (writes : ℕ → Write) (want : Episode → Bool) where
  set_each : List Episode → List Episode → List Episode × Result
  unfolding set_monitored after_write
  set_each [] rows = (rows, finished)
  set_each (e ∷ eps) rows =
      let written = set_monitored e.id (want e) rows in
      let rest = set_each eps written in after_write (writes e.id) e.id rows written rest

-- `decide` fails on the first episode, if there is one, when the mode is unknown.
apply_decided : (ℕ → Write) → Option Mode → ℕ → List Episode → List Episode → List Episode × Result
unfolding set_each decide max_season_of
apply_decided writes o now [] rows = (rows, finished)
apply_decided writes none now (e ∷ eps) rows = (rows, unknown_mode)
apply_decided writes (some m) now (e ∷ eps) rows =
    set_each writes (decide m (max_season_of 0 (e ∷ eps)) now) (e ∷ eps) rows

unfoldable pub apply_monitor_mode :
    Bool → (ℕ → Write) → ℕ → ℕ → Text → List Episode → List Episode × Result
unfolding apply_decided mode_of
apply_monitor_mode listed writes now series_id mode rows =
    if listed
    then apply_decided writes (mode_of mode) now (list_for_series series_id rows) rows
    else (rows, not_listed)
