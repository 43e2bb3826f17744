-- ===== src/Importer/Folder.antt =====
-- internal/importer/import.go: `importFile` and `ProcessFolder`.
pub mod Records
use sonarr.Common.{
  ℕ, suc, ◌==◌, Text, codes, ltb_ℤ, ℤ, Bool, true, false, not, ◌&&◌, List, [], ◌∷◌, ◌++◌, map,
  Option, none, some, if◌then◌else◌, any,
}
use sonarr.Parser.Types.{ParsedEpisodeInfo}
use sonarr.Parser.Patterns.{Find}
use sonarr.Parser.Title.{parse_title}
use sonarr.Organizer.{default_episode_format, build_filename, build_season_folder}
use sonarr.Library.{
  update_episode, Series, Episode, list_for_series, Write, saved, saved_unreported, unsaved,
}
use sonarr.Importer.{
  move_file, base_and_ext, is_media_file, is_unpacking, quality_full_name, find_episode,
  min_size_bytes, EpisodeFile, Entry, World, Answers, Result, imported, sample, no_number,
  no_episode, not_found, not_moved, not_recorded, not_updated,
}

-- An entry of the download folder.
pub record DirEntry : Type 0 where
  pub name : Text
  pub is_dir : Bool

pub data Outcome : Type 0 where
  unreadable unpacking no_series not_listed finished : Outcome

module _ (join : Text → Text → Text) (find : Find) (series : Series) (download_id : Text) where
  unfoldable pub relative_path : Text → ParsedEpisodeInfo → ℕ → Episode → Text
  relative_path filename parsed number ep = join (build_season_folder parsed.season_number) (
      build_filename default_episode_format (record {
        series_title = series.title;
        season_number = parsed.season_number;
        episode_number = number;
        episode_title = ep.title;
        quality_name = quality_full_name parsed.quality;
        release_group = parsed.release_group;
        air_date = [];
      })
      ++ (base_and_ext filename).1)

  record_history : Bool → Text → Text → Episode → World → World
  record_history false filename quality ep w = w
  record_history true filename quality ep w = record w {
    history =
        w.history
        ++ record {
          episode_id = ep.id;
          series_id = series.id;
          source_title = filename;
          quality_name = quality;
          download_id = download_id;
        }
          ∷ [];
  }

  link_episode : ℕ → Episode → World → World
  unfolding update_episode
  link_episode file_id ep w = record w {
    episodes = update_episode (record ep { episode_file_id = some file_id }) w.episodes;
  }

  after_update : Write → Answers → Text → Text → Episode → ℕ → World → World × Result
  unfolding link_episode record_history
  after_update saved env filename quality ep file_id w =
      (record_history env.recorded filename quality ep (link_episode file_id ep w), imported)
  after_update saved_unreported env filename quality ep file_id w =
      (link_episode file_id ep w, not_updated)
  after_update unsaved env filename quality ep file_id w = (w, not_updated)

  -- The row of episode_files, whose id is the table's counter.
  add_row : Text → ParsedEpisodeInfo → ℤ → World → World
  add_row path parsed size w = record w {
    rows =
        w.rows
        ++ record {
          id = w.next_file_id;
          series_id = series.id;
          season_number = parsed.season_number;
          relative_path = path;
          size = size;
          release_group = parsed.release_group;
          quality_name = quality_full_name parsed.quality;
        }
          ∷ [];
    next_file_id = suc w.next_file_id;
  }

  after_create :
      Write → Answers → Text → Text → ParsedEpisodeInfo → ℤ → Episode → World → World × Result
  unfolding add_row after_update
  after_create saved env filename path parsed size ep w =
      after_update env.updates env filename (quality_full_name parsed.quality) ep w.next_file_id
        (add_row path parsed size w)
  after_create saved_unreported env filename path parsed size ep w =
      (add_row path parsed size w, not_recorded)
  after_create unsaved env filename path parsed size ep w = (w, not_recorded)

  after_move :
      Bool → Answers → Text → Text → ParsedEpisodeInfo → ℤ → Episode → World → World × Result
  unfolding after_create
  after_move false env filename path parsed size ep w = (w, not_moved)
  after_move true env filename path parsed size ep w =
      after_create env.creates env filename path parsed size ep w

  import_matched :
      Option Episode → Answers → Text → Text → ParsedEpisodeInfo → ℕ → ℤ → World → World × Result
  unfolding after_move relative_path
  import_matched none env src filename parsed number size w = (w, no_episode)
  import_matched (some ep) env src filename parsed number size w =
      let path = relative_path filename parsed number ep in
      let (files, moved) = move_file env.moves src (join series.path path) w.files in
      after_move moved env filename path parsed size ep (record w { files = files })

  import_numbered :
      List ℕ → Answers → Text → Text → ParsedEpisodeInfo → List Episode → ℤ → World → World × Result
  unfolding import_matched
  import_numbered [] env src filename parsed episodes size w = (w, no_number)
  import_numbered (number ∷ numbers) env src filename parsed episodes size w =
      import_matched (find_episode episodes parsed.season_number number) env src filename parsed
        number size w

  import_sized : Option ℤ → Answers → Text → Text → List Episode → World → World × Result
  unfolding import_numbered
  import_sized none env src filename episodes w = (w, not_found)
  import_sized (some size) env src filename episodes w =
      let parsed = parse_title find (base_and_ext filename).0 in
      if ltb_ℤ size min_size_bytes
      then (w, sample)
      else import_numbered parsed.episode_numbers env src filename parsed episodes size w

  unfoldable pub import_file : Answers → Text → Text → List Episode → World → World × Result
  unfolding import_sized
  import_file env src filename episodes w = import_sized env.size env src filename episodes w

  -- The loop over the folder's entries; the error of one file is only logged.
  unfoldable pub import_entries :
      (Text → Answers) → Text → List DirEntry → List Episode → World → World
  unfolding import_file
  import_entries env folder [] episodes w = w
  import_entries env folder (e ∷ entries) episodes w = import_entries env folder entries episodes (
      if not e.is_dir && is_media_file e.name
      then (import_file (env e.name) (join folder e.name) e.name episodes w).0
      else w)

unfoldable pub is_sentinel : DirEntry → Bool
is_sentinel e = not e.is_dir && is_unpacking e.name

module _ (join : Text → Text → Text) (find : Find) (env : Text → Answers) (folder : Text)
    (download_id : Text) where
  with_series : List DirEntry → Option Series → Bool → World → World × Outcome
  unfolding import_entries
  with_series entries none listed w = (w, no_series)
  with_series entries (some series) listed w =
      if listed
      then (
        import_entries join find series download_id env folder entries
            (list_for_series series.id w.episodes) w,
        finished,
      )
      else (w, not_listed)

  with_entries : Option (List DirEntry) → Option Series → Bool → World → World × Outcome
  unfolding with_series is_sentinel
  with_entries none series listed w = (w, unreadable)
  with_entries (some entries) series listed w =
      if any is_sentinel entries then (w, unpacking) else with_series entries series listed w

  unfoldable pub process_folder :
      Option (List DirEntry) → Option Series → Bool → World → World × Outcome
  unfolding with_entries
  process_folder entries series listed w = with_entries entries series listed w
