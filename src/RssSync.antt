-- ===== src/RssSync.antt =====
-- internal/rsssync/rsssync.go: the pipeline from the indexers' releases to the grabs. Title parsing
-- and regular expressions are parameters, as are the answers of the indexers and the stores.
pub mod Handler
use sonarr.Common.{
  ℕ, ◌==◌, Text, text_eq, codes, to_lower, trim_space, Bool, true, false, ◌&&◌, ◌||◌, List, [], ◌∷◌,
  ◌++◌, Option, none, some, if◌then◌else◌, find, pos, eqb_ℤ, not, leb, length,
}
use sonarr.Parser.Types.{
  ParsedEpisodeInfo, ParsedQuality, source_text, resolution_text, untyped, source_unknown,
  resolution_unknown, unmodified,
}
use sonarr.Profiles.{QualityDefinition}
use sonarr.CustomFormats
use sonarr.CustomFormats.{CustomFormat}
use sonarr.DecisionEngine.Types.{RemoteEpisode}
use sonarr.Providers.{Release, Indexer}
use sonarr.Library.{Series, Episode}

pub record GroupKey : Type 0 where
  pub series_id : ℕ
  pub season : ℕ
  pub episode : ℕ

pub record Candidate : Type 0 where
  pub remote : RemoteEpisode
  pub release : Release
  pub episode_id : ℕ

-- An entry of the map `groups`.
pub record Group : Type 0 where
  pub key : GroupKey
  pub candidates : List Candidate

unfoldable pub find_by_title : List Series → Text → Option ℕ
find_by_title [] normalized = none
find_by_title (s ∷ all) normalized =
    if text_eq (to_lower s.title) normalized || text_eq (to_lower s.slug) normalized
    then some s.id
    else find_by_title all normalized

-- FindByTitle, over the series that the store lists.
unfoldable pub find_series : List Series → Text → Option ℕ
unfolding find_by_title
find_series all title = find_by_title all (to_lower (trim_space title))

unfoldable pub resolve_quality_id :
    {Float : Type 0} → ParsedQuality → List (QualityDefinition Float) → ℕ
resolve_quality_id parsed [] = 0
resolve_quality_id parsed (d ∷ defs) =
    if text_eq d.source (source_text parsed.source)
      && text_eq d.resolution (resolution_text parsed.resolution)
    then d.id
    else resolve_quality_id parsed defs

unfoldable pub quality_name_for_id : {Float : Type 0} → ℕ → List (QualityDefinition Float) → Text
quality_name_for_id id [] = codes ""
quality_name_for_id id (d ∷ defs) = if d.id == id then d.name else quality_name_for_id id defs

unfoldable pub matched_cf_ids :
    (Text → Option (Text → Bool)) → ParsedEpisodeInfo → List CustomFormat → List ℕ
matched_cf_ids compile parsed [] = []
matched_cf_ids compile parsed (cf ∷ formats) =
    let ids = matched_cf_ids compile parsed formats in
    if CustomFormats.match compile parsed cf then cf.id ∷ ids else ids

-- The loop that looks a parsed episode number up among the series' episodes.
unfoldable pub find_episode : ℕ → ℕ → List Episode → Option Episode
find_episode season number =
    find (λ ep. (ep.season_number == season) && (ep.episode_number == number))

-- What the indexers answer.
pub record Indexers : Type 0 where
  pub registered : Text → Bool
  pub settings_read : Indexer → Bool
  pub fetch_rss : Indexer → Option (List Release)

-- Step 1 for one indexer; each failure is logged and skipped.
fetch : Indexers → Indexer → List Release
fetch env inst =
    if not inst.enable_rss
    then []
    else if not (env.registered inst.implementation)
    then []
    else if leb 1 (length inst.settings) && not (env.settings_read inst)
    then []
    else elim (env.fetch_rss inst) [ none ↦ [] | some releases ↦ releases ]

unfoldable pub collect_releases : Indexers → List Indexer → List Release
unfolding fetch
collect_releases env [] = []
collect_releases env (inst ∷ instances) = fetch env inst ++ collect_releases env instances

abbrev pub same_key : GroupKey → GroupKey → Bool
same_key a b = (a.series_id == b.series_id) && ((a.season == b.season) && (a.episode == b.episode))

-- `groups[key] = append(groups[key], c)`.
unfoldable pub add_candidate : GroupKey → Candidate → List Group → List Group
add_candidate key c [] = record { key = key; candidates = c ∷ [] } ∷ []
add_candidate key c (g ∷ groups) =
    if same_key g.key key
    then record g { candidates = g.candidates ++ c ∷ [] } ∷ groups
    else g ∷ add_candidate key c groups

-- The zero value of `candidate`, from which the winner's search starts.
abbrev pub no_candidate : Candidate
no_candidate = record {
  release = record {
    title = [];
    guid = [];
    download_url = [];
    info_url = [];
    size = pos 0;
    publish_date = 0;
    indexer = [];
    protocol = [];
    seeders = pos 0;
    leechers = pos 0;
    categories = [];
  };
  episode_id = 0;
  remote = record {
    release = record {
      title = [];
      size = pos 0;
      indexer = [];
      age = 0;
      protocol = [];
      seeders = 0;
    };
    parsed_info = record {
      series_title = [];
      series_type = untyped;
      season_number = 0;
      episode_numbers = [];
      absolute_episode_numbers = [];
      air_date = none;
      year = 0;
      release_group = [];
      quality = no_quality;
      release_title = [];
      languages = [];
      indexer_flags = [];
      size = pos 0;
      release_type = [];
    };
    series_id = 0;
    episode_ids = [];
    quality = no_quality;
    quality_id = 0;
    custom_formats = [];
    cf_score = pos 0;
    existing_file_quality_id = 0;
    existing_file_release_group = [];
  };
}
  where
    no_quality : ParsedQuality
    no_quality = record {
      source = source_unknown;
      resolution = resolution_unknown;
      modifier = unmodified;
      revision = 0;
    }

-- The search for the first candidate with the best release's title and score.
unfoldable pub find_winner : RemoteEpisode → List Candidate → Candidate
find_winner best [] = no_candidate
find_winner best (c ∷ candidates) =
    if text_eq c.remote.release.title best.release.title && eqb_ℤ c.remote.cf_score best.cf_score
    then c
    else find_winner best candidates
