-- ===== src/Samples/Pipeline.antt =====
-- The pipeline from releases to grabs at concrete inputs.
use sonarr.Common.{
  if◌then◌else◌, ◌||◌, ℕ, pos, true, List, [], ◌∷◌, map, none, some, codes, ◌≡◌, refl, inl, In,
  text_eq, trim_space, lower, ◌<ℤ◌, ◌<◌, subst, sym,
}
use sonarr.Common.{trim_left, is_space, is_upper}
use sonarr.Common.Sort.{slice_stable}
use sonarr.Parser.Patterns.{Find, re_standard, group, is_match, atoi, atoi_or_zero, read_digits}
use sonarr.Parser.Title.{
  parse_title, spaced, has_double, collapse, clean_title, standard_episodes, is_empty, fresh,
}
use sonarr.Parser.Quality.{parse_quality}
use sonarr.Parser.Types.{source_text, resolution_text}
use sonarr.Profiles.{QualityDefinition}
use sonarr.CustomFormats
use sonarr.DecisionEngine.Types.{Spec}
use sonarr.DecisionEngine.Engine.{evaluate, rank, preferred, quality_index, index_from}
use sonarr.DecisionEngine.Specs.{quality_allowed}
use sonarr.Providers.{Release, Indexer, DownloadClient}
use sonarr.Library.{Episode, list_for_series}
use sonarr.Grab
use sonarr.Grab.{World, Entry, grab, grabbed, record_history, lowest, choose, candidates}
use sonarr.Grab.Outcomes.{IsOutcome, grab-IsOutcome}
use sonarr.RssSync.{
  Candidate, Group, find_winner, find_by_title, find_series, resolve_quality_id,
  quality_name_for_id, matched_cf_ids, find_episode, collect_releases, add_candidate,
}
use sonarr.RssSync.Handler.{
  Environment, remote_of, unless_rejected, consider, consider_found, consider_numbers,
  process_matched, process_titled, process_releases, grab_best, grab_group, grab_groups,
  profile_or_empty, with_data, with_releases, with_instances, handle,
}
use sonarr.RssSync.Handler.Groups.{IsSound, Holds, IsSoundList, process_releases-IsSound}
use sonarr.RssSync.Handler.Winner.{winner-IsBest}
use sonarr.RssSync.Handler.Safety.{IsExplained, handle-IsSafe}
use sonarr.Samples.Releases.{profile, compile}

abbrev release : Release
release = record {
  title = codes "Show.S01E02.1080p.WEB-DL-GRP";
  guid = codes "g";
  download_url = codes "http://idx/1";
  info_url = [];
  size = pos 3000000000;
  publish_date = 0;
  indexer = codes "idx";
  protocol = codes "usenet";
  seeders = pos 0;
  leechers = pos 0;
  categories = [];
}

-- The same title in a larger size, from another indexer.
abbrev larger : Release
larger = record release { size = pos 4000000000; download_url = codes "http://idx/2" }

abbrev client : DownloadClient
client = record {
  id = 1;
  name = codes "sab";
  implementation = codes "Sabnzbd";
  settings = codes "{}";
  enable = true;
  priority = pos 1;
  remove_completed_downloads = true;
  remove_failed_downloads = true;
  added = 0;
}

abbrev clients : Grab.Environment
clients = record {
  clients = some (record client { id = 2; priority = pos 5 } ∷ client ∷ []);
  protocol_of = λ _. some (codes "usenet");
  settings_read = λ _. true;
  add = λ _ _ _. some (codes "d1");
  recorded = λ _. true;
}

abbrev nothing : World
nothing = record { sent = []; history = []; published = [] }

grab_sample : (grab clients release 7 (70 ∷ []) (codes "WEBDL-1080p") nothing).1 ≡ grabbed
unfolding grab candidates lowest choose text_eq record_history
grab_sample = refl

grab-IsOutcome_example :
    IsOutcome clients release 7
      (70 ∷ [])
      (codes "WEBDL-1080p")
      nothing
      (grab clients release 7 (70 ∷ []) (codes "WEBDL-1080p") nothing).0
      (grab clients release 7 (70 ∷ []) (codes "WEBDL-1080p") nothing).1
grab-IsOutcome_example = grab-IsOutcome clients release 7 (70 ∷ []) (codes "WEBDL-1080p") nothing

abbrev definition : QualityDefinition ℕ
definition = record {
  id = 3;
  name = codes "WEBDL-1080p";
  source = codes "webdl";
  resolution = codes "1080p";
  min_size = 0;
  max_size = 0;
  preferred_size = 0;
}

abbrev episode : Episode
episode = record {
  id = 70;
  series_id = 7;
  season_number = 1;
  episode_number = 2;
  title = codes "Second";
  air_date_utc = none;
  monitored = true;
  episode_file_id = some 9;
}

abbrev indexer : Indexer
indexer = record {
  id = 1;
  name = codes "idx";
  implementation = codes "Newznab";
  settings = [];
  enable_rss = true;
  enable_automatic_search = true;
  enable_interactive_search = true;
  priority = pos 25;
  added = 0;
}

-- What the patterns find in the sample titles.
abbrev find : Find
find pattern title =
    if text_eq pattern re_standard
    then some (title ∷ codes "Show" ∷ codes "01" ∷ codes "02" ∷ [] ∷ [])
    else if text_eq pattern (codes "(?i)\\b1080[pi]\\b")
        || text_eq pattern (codes "(?i)\\b(WEB[-. ]?DL|WEBDL)\\b")
    then some []
    else none

abbrev allowed_only : List Spec
allowed_only = quality_allowed ∷ []

abbrev store : Environment ℕ
store = record {
  instances = some (indexer ∷ []);
  indexers = record {
    registered = λ _. true;
    settings_read = λ _. true;
    fetch_rss = λ _. some (release ∷ larger ∷ []);
  };
  definitions = some (definition ∷ []);
  formats = some [];
  profile_1 = some profile;
  series =
      record {
        id = 7;
        tvdb_id = 1;
        title = codes "Show";
        slug = codes "show";
        path = codes "/tv/Show";
      }
      ∷ [];
  series_listed = λ _. true;
  episodes = episode ∷ [];
  episodes_listed = λ _. true;
  order = λ gs. gs;
  grabs = λ _. clients;
}

abbrev candidate_of : Release → Candidate
candidate_of rel = record {
  remote =
      remote_of compile find allowed_only store (definition ∷ []) [] profile rel
        (parse_title find rel.title) 7 episode;
  release = rel;
  episode_id = 70;
}

abbrev candidates_group : Group
candidates_group = record {
  key = record { series_id = 7; season = 1; episode = 2 };
  candidates = candidate_of release ∷ candidate_of larger ∷ [];
}

process_releases-IsSound_example :
    IsSoundList compile find allowed_only store (definition ∷ []) [] profile (
      process_releases compile find allowed_only store
        (definition ∷ [])
        []
        profile
        (release ∷ larger ∷ [])
        [])
process_releases-IsSound_example =
    process_releases-IsSound compile find allowed_only store (definition ∷ []) [] profile
      (release ∷ larger ∷ []) [] (tt, tt)

-- The larger release is ranked first, and the smaller one is grabbed.
winner_sample :
    find_winner (candidate_of larger).remote (candidate_of release ∷ candidate_of larger ∷ [])
    ≡ candidate_of release
unfolding parse_title re_standard is_match group atoi read_digits atoi_or_zero clean_title spaced
    collapse has_double trim_space trim_left is_space fresh parse_quality standard_episodes is_empty
    find_winner remote_of text_eq CustomFormats.score
winner_sample = refl

group-Holds :
    Holds (IsSound compile find allowed_only store (definition ∷ []) [] profile) candidates_group
unfolding parse_title re_standard is_match group atoi read_digits atoi_or_zero clean_title spaced
    collapse has_double trim_space trim_left is_space fresh parse_quality standard_episodes is_empty
    remote_of evaluate quality_allowed resolve_quality_id text_eq source_text resolution_text
group-Holds = (
  (λ e. cc),
  (
    (episode, inl refl, refl, refl, refl, refl, refl),
    ((episode, inl refl, refl, refl, refl, refl, refl), tt),
  ),
)

ranking_sample :
    rank (map (λ c. c.remote) candidates_group.candidates) profile
    ≡ (candidate_of larger).remote ∷ (candidate_of release).remote ∷ []
unfolding parse_title re_standard is_match group atoi read_digits atoi_or_zero clean_title spaced
    collapse has_double trim_space trim_left is_space fresh parse_quality standard_episodes is_empty
    rank preferred quality_index index_from remote_of CustomFormats.score slice_stable
    resolve_quality_id text_eq source_text resolution_text
ranking_sample = refl

winner-IsBest_example :
    In
      (find_winner (candidate_of larger).remote candidates_group.candidates)
      candidates_group.candidates
    × ((c : Candidate)
        → In c candidates_group.candidates
        → ¬ (
            (find_winner (candidate_of larger).remote candidates_group.candidates).remote.cf_score
            <ℤ c.remote.cf_score)
          × ¬ (
              (c.remote.cf_score
                ≡ (find_winner
                    (candidate_of larger).remote
                    candidates_group.candidates).remote.cf_score)
              × (quality_index c.remote profile
                  < quality_index
                      (find_winner (candidate_of larger).remote candidates_group.candidates).remote
                      profile)))
winner-IsBest_example =
    winner-IsBest compile find allowed_only store (definition ∷ []) [] profile candidates_group
      group-Holds (candidate_of larger).remote ((candidate_of release).remote ∷ []) ranking_sample

abbrev history_entry : Entry
history_entry = record {
  episode_id = 70;
  series_id = 7;
  source_title = release.title;
  quality_name = codes "WEBDL-1080p";
  download_id = codes "d1";
}

handle_sample : (handle compile find allowed_only store nothing).0.history ≡ history_entry ∷ []
unfolding parse_title re_standard is_match group atoi read_digits atoi_or_zero clean_title spaced
    collapse has_double trim_space trim_left is_space fresh parse_quality standard_episodes is_empty
    handle collect_releases find_series text_eq lower find_episode list_for_series slice_stable
    evaluate quality_allowed remote_of resolve_quality_id source_text resolution_text add_candidate
    rank preferred is_upper CustomFormats.score index_from quality_index candidates choose grab
    lowest record_history consider consider_found consider_numbers grab_best grab_group grab_groups
    process_matched process_releases process_titled profile_or_empty unless_rejected with_data
    with_instances with_releases find_by_title find_winner matched_cf_ids quality_name_for_id
handle_sample = refl

handle-IsSafe_example : IsExplained compile find allowed_only store nothing history_entry
handle-IsSafe_example =
    handle-IsSafe compile find allowed_only store nothing history_entry (λ gs g m. m)
      (subst (In history_entry) (sym handle_sample) (inl refl))
