-- ===== src/RefreshSeries.antt =====
-- internal/commands/handlers/refresh_series.go: the command that takes a series' metadata over into the
-- library, with the stores' writes of internal/library. Of the metadata the fields that the library's
-- records keep here are modelled. The parsing of the body, the metadata source and the ends of the
-- database calls are given.
pub mod Keeping
use sonarr.Common.{
  ℕ, suc, ◌==◌, Bool, true, false, not, ◌&&◌, List, [], ◌∷◌, ◌++◌, Option, none, some, Text,
  if◌then◌else◌, any, map,
}
use sonarr.Library.{
  Series, Episode, Write, saved, saved_unreported, unsaved, update_episode, list_for_series,
}

-- metadatasource.EpisodeInfo.
pub record EpisodeInfo : Type 0 where
  pub season_number : ℕ
  pub episode_number : ℕ
  pub title : Text
  pub air_date : Option ℕ

pub record Season : Type 0 where
  pub series_id : ℕ
  pub season_number : ℕ
  pub monitored : Bool

-- The tables; `next_id` is the counter of the episodes.
pub record World : Type 0 where
  pub series : List Series
  pub seasons : List Season
  pub episodes : List Episode
  pub next_id : ℕ

pub record Answers : Type 0 where
  pub body : Option ℕ
  pub get : ℕ → Option Series
  pub title : Option Text
  pub updates_series : Write
  pub episodes : Option (List EpisodeInfo)
  pub upserts : ℕ → Write
  pub listed : Bool
  pub updates : ℕ → Write
  pub creates : ℕ → ℕ → Write

pub data Outcome : Type 0 where
  no_body no_series no_metadata not_updated no_episodes not_listed refreshed : Outcome

is_season : ℕ → ℕ → Season → Bool
is_season series_id n s = s.series_id == series_id && s.season_number == n

-- UpsertSeason: `ON CONFLICT DO UPDATE SET monitored = excluded.monitored`.
unfoldable pub upsert_season : Season → List Season → List Season
unfolding is_season
upsert_season s [] = s ∷ []
upsert_season s (x ∷ xs) =
    if is_season s.series_id s.season_number x
    then record x { monitored = s.monitored } ∷ xs
    else x ∷ upsert_season s xs

written_season : Write → Season → List Season → List Season
unfolding upsert_season
written_season unsaved s seasons = seasons
written_season saved s seasons = upsert_season s seasons
written_season saved_unreported s seasons = upsert_season s seasons

-- The loop over the seasons, with `seasonsSeen`.
unfoldable pub upsert_seasons : Answers → ℕ → List ℕ → List EpisodeInfo → List Season → List Season
unfolding written_season
upsert_seasons env series_id seen [] seasons = seasons
upsert_seasons env series_id seen (ep ∷ eps) seasons =
    let known = upsert_seasons env series_id seen eps seasons in
    let added = upsert_seasons env series_id (ep.season_number ∷ seen) eps (
      written_season (env.upserts ep.season_number)
        (record { series_id = series_id; season_number = ep.season_number; monitored = true })
        seasons) in
    if any (λ n. n == ep.season_number) seen then known else added

-- A later entry of a map replaces an earlier one.
later_or : Option Episode → Option Episode → Option Episode
later_or none o = o
later_or (some e) o = some e

-- `existingMap[key]`: the last listed episode of the number.
unfoldable pub lookup_existing : ℕ → ℕ → List Episode → Option Episode
unfolding later_or
lookup_existing season number [] = none
lookup_existing season number (e ∷ es) =
    later_or (lookup_existing season number es)
      (if e.season_number == season && e.episode_number == number then some e else none)

written_episode : Write → Episode → List Episode → List Episode
written_episode unsaved ep episodes = episodes
written_episode saved ep episodes = update_episode ep episodes
written_episode saved_unreported ep episodes = update_episode ep episodes

-- `UNIQUE (series_id, season_number, episode_number)`.
is_taken : ℕ → EpisodeInfo → List Episode → Bool
is_taken series_id ep = any (λ e.
    e.series_id == series_id
    && (e.season_number == ep.season_number && e.episode_number == ep.episode_number))

insert_episode : ℕ → EpisodeInfo → World → World
insert_episode series_id ep w = record w {
  episodes =
      w.episodes
      ++ record {
        id = w.next_id;
        series_id = series_id;
        season_number = ep.season_number;
        episode_number = ep.episode_number;
        title = ep.title;
        air_date_utc = ep.air_date;
        monitored = true;
        episode_file_id = none;
      }
        ∷ [];
  next_id = suc w.next_id;
}

create_episode : Write → ℕ → EpisodeInfo → World → World
unfolding is_taken insert_episode
create_episode unsaved series_id ep w = w
create_episode saved series_id ep w =
    if is_taken series_id ep w.episodes then w else insert_episode series_id ep w
create_episode saved_unreported series_id ep w =
    if is_taken series_id ep w.episodes then w else insert_episode series_id ep w

-- One round of the loop over the episodes; the errors of the writes are not looked at.
merge_episode : Answers → ℕ → EpisodeInfo → Option Episode → World → World
unfolding written_episode create_episode
merge_episode env series_id ep (some old) w = record w {
  episodes =
      written_episode (env.updates old.id)
        (record old { title = ep.title; air_date_utc = ep.air_date }) w.episodes;
}
merge_episode env series_id ep none w =
    create_episode (env.creates ep.season_number ep.episode_number) series_id ep w

unfoldable pub merge_episodes : Answers → ℕ → List Episode → List EpisodeInfo → World → World
unfolding merge_episode lookup_existing
merge_episodes env series_id existing [] w = w
merge_episodes env series_id existing (ep ∷ eps) w =
    merge_episodes env series_id existing eps (
      merge_episode env series_id ep (lookup_existing ep.season_number ep.episode_number existing)
        w)

with_episodes : Answers → ℕ → Option (List EpisodeInfo) → World → Outcome × World
unfolding upsert_seasons merge_episodes
with_episodes env series_id none w = (no_episodes, w)
with_episodes env series_id (some eps) w =
    let w' = record w { seasons = upsert_seasons env series_id [] eps w.seasons } in
    if env.listed
    then (refreshed, merge_episodes env series_id (list_for_series series_id w'.episodes) eps w')
    else (not_listed, w')

set_title : Series → Text → World → World
set_title s title w = record w {
  series = map (λ x. if x.id == s.id then record s { title = title } else x) w.series;
}

after_update : Write → Answers → Series → Text → World → Outcome × World
unfolding with_episodes set_title
after_update unsaved env s title w = (not_updated, w)
after_update saved_unreported env s title w = (not_updated, set_title s title w)
after_update saved env s title w = with_episodes env s.id env.episodes (set_title s title w)

with_metadata : Answers → Series → Option Text → World → Outcome × World
unfolding after_update
with_metadata env s none w = (no_metadata, w)
with_metadata env s (some title) w = after_update env.updates_series env s title w

with_found : Answers → Option Series → World → Outcome × World
unfolding with_metadata
with_found env none w = (no_series, w)
with_found env (some s) w = with_metadata env s env.title w

with_body : Answers → Option ℕ → World → Outcome × World
unfolding with_found
with_body env none w = (no_body, w)
with_body env (some id) w = with_found env (env.get id) w

-- Handle.
unfoldable pub handle : Answers → World → Outcome × World
unfolding with_body
handle env w = with_body env env.body w
