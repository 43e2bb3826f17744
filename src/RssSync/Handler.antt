-- ===== src/RssSync/Handler.antt =====
-- internal/rsssync/rsssync.go: `Handle`, from the listed indexers to the grabs.
pub mod Groups
pub mod Winner
pub mod Safety
use sonarr.Common.{
  ℕ, ◌==◌, Text, Bool, true, false, List, [], ◌∷◌, ◌++◌, map, Option, none, some, if◌then◌else◌,
  pos, codes,
}
use sonarr.Parser.Types.{ParsedEpisodeInfo}
use sonarr.Parser.Patterns.{Find}
use sonarr.Parser.Title.{parse_title}
use sonarr.Profiles.{QualityDefinition, QualityProfile}
use sonarr.CustomFormats
use sonarr.CustomFormats.{CustomFormat}
use sonarr.DecisionEngine.Types.{Decision, accept, reject, Rejection, RemoteEpisode, Spec}
use sonarr.DecisionEngine.Engine.{evaluate, rank}
use sonarr.Providers.{Release, Indexer}
use sonarr.Library.{Series, Episode, list_for_series}
use sonarr.Grab
use sonarr.Grab.{World, grab}
use sonarr.RssSync.{
  GroupKey, Candidate, Group, find_series, resolve_quality_id, quality_name_for_id, matched_cf_ids,
  find_episode, Indexers, collect_releases, add_candidate, find_winner,
}

-- What the stores and providers answer during one run. `order` is the order in which Go walks the
-- map of groups.
pub record Environment (Float : Type 0) : Type 0 where
  pub instances : Option (List Indexer)
  pub indexers : Indexers
  pub definitions : Option (List (QualityDefinition Float))
  pub formats : Option (List CustomFormat)
  pub profile_1 : Option QualityProfile
  pub series : List Series
  pub series_listed : Release → Bool
  pub episodes : List Episode
  pub episodes_listed : Release → Bool
  pub order : List Group → List Group
  pub grabs : GroupKey → Grab.Environment

pub data Result : Type 0 where
  indexers_not_listed definitions_not_read formats_not_listed finished : Result

-- The profile that stands in for one that cannot be loaded.
abbrev pub empty_profile : QualityProfile
empty_profile = record {
  id = 1;
  name = codes "Any";
  upgrade_allowed = false;
  cutoff = 0;
  items = [];
  min_format_score = pos 0;
  cutoff_format_score = pos 0;
  format_items = [];
}

unfoldable pub profile_or_empty : Option QualityProfile → QualityProfile
profile_or_empty none = empty_profile
profile_or_empty (some profile) = profile

module _ (compile : Text → Option (Text → Bool)) (find : Find) (specs : List Spec) {Float : Type 0}
    (env : Environment Float) where
  module _ (defs : List (QualityDefinition Float)) (formats : List CustomFormat)
      (profile : QualityProfile) where
    unfoldable pub remote_of : Release → ParsedEpisodeInfo → ℕ → Episode → RemoteEpisode
    remote_of rel parsed series_id ep = record {
      release = record {
        title = rel.title;
        size = rel.size;
        indexer = rel.indexer;
        age = 0;
        protocol = rel.protocol;
        seeders = 0;
      };
      parsed_info = parsed;
      series_id = series_id;
      episode_ids = ep.id ∷ [];
      quality = parsed.quality;
      quality_id = resolve_quality_id parsed.quality defs;
      custom_formats = matched_cf_ids compile parsed formats;
      cf_score = CustomFormats.score compile parsed formats profile;
      existing_file_quality_id = 0;
      existing_file_release_group = codes "";
    }

    -- A rejected release joins no group.
    unfoldable pub unless_rejected :
        Decision × List Rejection → GroupKey → Candidate → List Group → List Group
    unless_rejected (reject, rejections) key c groups = groups
    unless_rejected (accept, rejections) key c groups = add_candidate key c groups

    -- The body of the inner loop for an episode that the library has.
    unfoldable pub consider :
        Release → ParsedEpisodeInfo → ℕ → ℕ → Episode → List Group → List Group
    unfolding unless_rejected
    consider rel parsed series_id number ep groups =
        let remote = remote_of rel parsed series_id ep in
        if ep.monitored
        then unless_rejected (evaluate specs remote profile)
            (record { series_id = series_id; season = parsed.season_number; episode = number })
            (record { remote = remote; release = rel; episode_id = ep.id }) groups
        else groups

    unfoldable pub consider_found :
        Option Episode → Release → ParsedEpisodeInfo → ℕ → ℕ → List Group → List Group
    unfolding consider
    consider_found none rel parsed series_id number groups = groups
    consider_found (some ep) rel parsed series_id number groups =
        consider rel parsed series_id number ep groups

    -- The inner loop, over the parsed episode numbers.
    unfoldable pub consider_numbers :
        Release → ParsedEpisodeInfo → ℕ → List ℕ → List Group → List Group
    unfolding consider_found
    consider_numbers rel parsed series_id [] groups = groups
    consider_numbers rel parsed series_id (number ∷ numbers) groups =
        consider_numbers rel parsed series_id numbers (
          consider_found
            (find_episode parsed.season_number number (list_for_series series_id env.episodes)) rel
            parsed series_id number groups)

    unfoldable pub process_matched :
        Option ℕ → Release → ParsedEpisodeInfo → List Group → List Group
    unfolding consider_numbers
    process_matched none rel parsed groups = groups
    process_matched (some series_id) rel parsed groups =
        if env.episodes_listed rel
        then consider_numbers rel parsed series_id parsed.episode_numbers groups
        else groups

    -- The body of the outer loop; a release without a title, series or episode number is skipped.
    unfoldable pub process_titled : Text → Release → ParsedEpisodeInfo → List Group → List Group
    unfolding process_matched
    process_titled [] rel parsed groups = groups
    process_titled (c ∷ cs) rel parsed groups =
        if env.series_listed rel
        then process_matched (find_series env.series (c ∷ cs)) rel parsed groups
        else groups

    unfoldable pub process_releases : List Release → List Group → List Group
    unfolding process_titled
    process_releases [] groups = groups
    process_releases (rel ∷ releases) groups =
        let parsed = parse_title find rel.title in
        process_releases releases (process_titled parsed.series_title rel parsed groups)

    -- Step 4 for one group whose best release is known; the error of a grab is only logged.
    unfoldable pub grab_best : List RemoteEpisode → Group → World → World
    grab_best [] g w = w
    grab_best (best ∷ ranked) g w =
        let winner = find_winner best g.candidates in
        (grab (env.grabs g.key) winner.release g.key.series_id (winner.episode_id ∷ [])
          (quality_name_for_id best.quality_id defs) w).0

    unfoldable pub grab_group : Group → World → World
    unfolding grab_best
    grab_group g w = grab_best (rank (map (λ c. c.remote) g.candidates) profile) g w

    unfoldable pub grab_groups : List Group → World → World
    unfolding grab_group
    grab_groups [] w = w
    grab_groups (g ∷ groups) w = grab_groups groups (grab_group g w)

  -- Steps 2 to 4.
  unfoldable pub with_data :
      Option (List (QualityDefinition Float))
      → Option (List CustomFormat)
      → List Release
      → World
      → World × Result
  unfolding process_releases grab_groups profile_or_empty
  with_data none formats releases w = (w, definitions_not_read)
  with_data (some defs) none releases w = (w, formats_not_listed)
  with_data (some defs) (some formats) releases w =
      let profile = profile_or_empty env.profile_1 in
      (
        grab_groups defs formats profile
            (env.order (process_releases defs formats profile releases [])) w,
        finished,
      )

  unfoldable pub with_releases : List Release → World → World × Result
  unfolding with_data
  with_releases [] w = (w, finished)
  with_releases (rel ∷ releases) w = with_data env.definitions env.formats (rel ∷ releases) w

  unfoldable pub with_instances : Option (List Indexer) → World → World × Result
  unfolding with_releases
  with_instances none w = (w, indexers_not_listed)
  with_instances (some instances) w = with_releases (collect_releases env.indexers instances) w

  unfoldable pub handle : World → World × Result
  unfolding with_instances
  handle w = with_instances env.instances w
