-- ===== src/Library.antt =====
-- internal/library: the series and episodes that the release pipeline reads, from series.go and
-- episodes.go. Ids, seasons and episode numbers are natural numbers. The fields that only the API
-- shows are left out.
pub mod Listing
pub mod MonitorMode
use sonarr.Common.{ℕ, ◌==◌, ltb, Text, Bool, List, Option, if◌then◌else◌, select, map}
use sonarr.Common.Sort.{slice_stable}

pub record Series : Type 0 where
  pub id : ℕ
  pub tvdb_id : ℕ
  pub title : Text
  pub slug : Text
  pub path : Text

pub record Episode : Type 0 where
  pub id : ℕ
  pub series_id : ℕ
  pub season_number : ℕ
  pub episode_number : ℕ
  pub title : Text
  pub air_date_utc : Option ℕ
  pub monitored : Bool
  pub episode_file_id : Option ℕ

-- How a write of a store ends: the row is written and nil returned, written with an error (of the
-- commit's report or of the event), or not written.
pub data Write : Type 0 where
  saved saved_unreported unsaved : Write

-- `UPDATE episodes SET ... WHERE id = ?` with the episode as it was listed.
unfoldable pub update_episode : Episode → List Episode → List Episode
update_episode ep = map (λ e. if e.id == ep.id then ep else e)

-- ListEpisodesForSeries: `WHERE series_id = ? ORDER BY season_number, episode_number`.
unfoldable pub list_for_series : ℕ → List Episode → List Episode
list_for_series series_id episodes =
    slice_stable
      (λ a b.
        if a.season_number == b.season_number
        then ltb a.episode_number b.episode_number
        else ltb a.season_number b.season_number)
      (select (λ e. e.series_id == series_id) episodes)
