-- ===== src/Samples/Refreshing.antt =====
-- A refresh of a series' metadata at concrete inputs.
use sonarr.Common.{codes, true, false, [], ◌∷◌, none, some, ◌≡◌, refl, sym, ◌∙◌, inl, inr}
use sonarr.Common.Sort.{slice_stable}
use sonarr.Library.{Series, Episode, saved, update_episode, list_for_series}
use sonarr.RefreshSeries.{
  World, Answers, refreshed, upsert_season, upsert_seasons, lookup_existing, merge_episodes, handle,
}
use sonarr.RefreshSeries.Keeping.{IsKept, HasUniqueIds, handle-IsKept}

abbrev show : Series
show = record { id = 7; tvdb_id = 70; title = codes "Old"; slug = codes "old"; path = codes "/tv" }

-- An episode that the user does not monitor, with its file.
abbrev pilot : Episode
pilot = record {
  id = 3;
  series_id = 7;
  season_number = 1;
  episode_number = 1;
  title = codes "TBA";
  air_date_utc = none;
  monitored = false;
  episode_file_id = some 11;
}

abbrev world : World
world = record {
  series = show ∷ [];
  seasons = record { series_id = 7; season_number = 1; monitored = false } ∷ [];
  episodes = pilot ∷ [];
  next_id = 4;
}

abbrev env : Answers
env = record {
  body = some 7;
  get = λ _. some show;
  title = some (codes "New");
  updates_series = saved;
  episodes = some (
      record { season_number = 1; episode_number = 1; title = codes "Pilot"; air_date = some 100 }
      ∷ record { season_number = 1; episode_number = 2; title = codes "Two"; air_date = none }
      ∷ []);
  upserts = λ _. saved;
  listed = true;
  updates = λ _. saved;
  creates = λ _ _. saved;
}

-- The season that the user does not monitor is monitored again.
refresh_sample : handle env world ≡ (
  refreshed,
  record {
    series = record show { title = codes "New" } ∷ [];
    seasons = record { series_id = 7; season_number = 1; monitored = true } ∷ [];
    episodes =
        record pilot { title = codes "Pilot"; air_date_utc = some 100 }
        ∷ record {
          id = 4;
          series_id = 7;
          season_number = 1;
          episode_number = 2;
          title = codes "Two";
          air_date_utc = none;
          monitored = true;
          episode_file_id = none;
        }
        ∷ [];
    next_id = 5;
  },
)
unfolding handle upsert_seasons upsert_season merge_episodes lookup_existing update_episode
    list_for_series slice_stable
refresh_sample = refl

alone : HasUniqueIds world.episodes
alone a b (inl m) (inl n) e = m ∙ sym n
alone a b (inr m) n e = absurd m
alone a b (inl m) (inr n) e = absurd n

handle-IsKept_example : IsKept world.episodes (handle env world).1.episodes
handle-IsKept_example = handle-IsKept env world alone
