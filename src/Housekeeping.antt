-- ===== src/Housekeeping.antt =====
-- internal/housekeeping/housekeeping.go over the tables, with the adapters of internal/app/app.go and
-- the Delete of internal/library/episodefiles_sqlite.go. The file system, `filepath.Join` and the
-- ends of the database calls are given. A listing keeps the order of its table: the deletions of a run
-- do not depend on one another. Logging is left out.
pub mod Orphans
use sonarr.Common.{
  ℕ, ◌+◌, ◌-◌, ◌*◌, ltb, ◌==◌, Text, Bool, true, false, not, ◌&&◌, List, [], ◌∷◌, ◌++◌, Option,
  none, some, ℤ, pos, leb_ℤ, pos_part, if◌then◌else◌, any, select,
}
use sonarr.Library.{Write, saved, saved_unreported, unsaved}

pub record EpisodeFileInfo : Type 0 where
  pub id : ℕ
  pub series_id : ℕ
  pub relative_path : Text

pub record SeriesInfo : Type 0 where
  pub id : ℕ
  pub path : Text

-- What the runner's calls change: the dates of the history, the rows of the episode files, the series
-- whose statistics are recomputed, and whether the database is compacted.
pub record World : Type 0 where
  pub history : List ℕ
  pub files : List EpisodeFileInfo
  pub recomputed : List ℕ
  pub vacuumed : Bool

-- How the calls of a run end. `missing` is os.IsNotExist of os.Stat's error.
pub record Answers : Type 0 where
  pub now : ℕ
  pub trims : Bool
  pub series : Option (List SeriesInfo)
  pub series_again : Option (List SeriesInfo)
  pub lists : ℕ → Bool
  pub join : Text → Text → Text
  pub missing : Text → Bool
  pub deletes : ℕ → Write
  pub recomputes : ℕ → Bool
  pub vacuums : Bool

-- New: in seconds, 90 days by default.
unfoldable pub retention_of : ℤ → ℕ
retention_of retention = if leb_ℤ retention (pos 0) then 90 * 24 * 3600 else pos_part retention

-- DeleteBefore.
unfoldable pub trim_history : Answers → ℕ → World → World
trim_history env retention w =
    if env.trims
    then record w { history = select (λ date. not (ltb date (env.now - retention))) w.history }
    else w

-- Delete of a row by its id.
delete_row : Write → ℕ → List EpisodeFileInfo → List EpisodeFileInfo
delete_row unsaved id files = files
delete_row saved id files = select (λ f. not (f.id == id)) files
delete_row saved_unreported id files = select (λ f. not (f.id == id)) files

-- The inner loop over the files of a series.
clean_files : Answers → Text → List EpisodeFileInfo → List EpisodeFileInfo → List EpisodeFileInfo
unfolding delete_row
clean_files env path [] files = files
clean_files env path (f ∷ fs) files = clean_files env path fs (
    if env.missing (env.join path f.relative_path)
    then delete_row (env.deletes f.id) f.id files
    else files)

clean_one : Answers → SeriesInfo → List EpisodeFileInfo → List EpisodeFileInfo
unfolding clean_files
clean_one env s files =
    if env.lists s.id
    then clean_files env s.path (select (λ f. f.series_id == s.id) files) files
    else files

clean_series : Answers → List SeriesInfo → List EpisodeFileInfo → List EpisodeFileInfo
unfolding clean_one
clean_series env [] files = files
clean_series env (s ∷ ss) files = clean_series env ss (clean_one env s files)

clean_listed : Answers → Option (List SeriesInfo) → World → World
unfolding clean_series
clean_listed env none w = w
clean_listed env (some series) w = record w { files = clean_series env series w.files }

unfoldable pub clean_orphan_episode_files : Answers → World → World
unfolding clean_listed
clean_orphan_episode_files env w = clean_listed env env.series w

recompute_all : Answers → List SeriesInfo → List ℕ
recompute_all env [] = []
recompute_all env (s ∷ ss) =
    if env.recomputes s.id then s.id ∷ recompute_all env ss else recompute_all env ss

recompute_listed : Answers → Option (List SeriesInfo) → World → World
unfolding recompute_all
recompute_listed env none w = w
recompute_listed env (some series) w = record w {
  recomputed = w.recomputed ++ recompute_all env series;
}

unfoldable pub recalculate_statistics : Answers → World → World
unfolding recompute_listed
recalculate_statistics env w = recompute_listed env env.series_again w

unfoldable pub vacuum_database : Answers → World → World
vacuum_database env w = if env.vacuums then record w { vacuumed = true } else w

unfoldable pub run : Answers → ℤ → World → World
unfolding retention_of trim_history clean_orphan_episode_files recalculate_statistics
    vacuum_database
run env retention w = vacuum_database env (
    recalculate_statistics env
      (clean_orphan_episode_files env (trim_history env (retention_of retention) w)))
