-- ===== src/Samples/Releases.antt =====
-- Releases, profiles and the decision engine at concrete inputs.
use mathlib.Core.List.{Perm}
use sonarr.Common.{
  ℕ, ◌*◌, ℤ, pos, Bool, true, false, List, [], ◌∷◌, Option, none, some, Text, codes, ◌≡◌, ◌≢◌, ◌↔◌,
  refl, All, select, ltb, text_eq, contains, lower,
}
use sonarr.Parser.Types.{ParsedEpisodeInfo, web_dl, p1080, unmodified, standard}
use sonarr.Common.Sort.{slice_stable}
use sonarr.Profiles.{QualityProfile, QualityDefinition}
use sonarr.Blocklist
use sonarr.Blocklist.{Entry}
use sonarr.ReleaseProfile.{Profile, term_matches}
use sonarr.ReleaseProfile
use sonarr.ReleaseProfile.Terms
use sonarr.DecisionEngine.Types.{accept, reject, RemoteEpisode}
use sonarr.DecisionEngine.Engine.{evaluate, rank, preferred, quality_index, index_from}
use sonarr.DecisionEngine.Engine.Verdict.{all_reasons, evaluate_complete}
use sonarr.DecisionEngine.Engine.Ranking.{BestFirst, alike, rank_correct}
use sonarr.DecisionEngine.Specs.{
  engine_specs, quality_allowed, custom_format_score, upgrade_allowed, upgradable, acceptable_size,
  not_sample, same_group_repack, already_imported, blocklisted, release_profile, profiles_for,
  profile_index,
}
use sonarr.DecisionEngine.Specs.Acceptance.{IsAcceptable, evaluate-IsAcceptable}

abbrev pub info : ParsedEpisodeInfo
info = record {
  series_title = codes "Show";
  series_type = standard;
  season_number = 1;
  episode_numbers = 2 ∷ [];
  absolute_episode_numbers = [];
  air_date = none;
  year = 0;
  release_group = codes "GRP";
  quality = record { source = web_dl; resolution = p1080; modifier = unmodified; revision = 1 };
  release_title = codes "Show.S01E02.1080p.WEB-DL-GRP";
  languages = codes "English" ∷ [];
  indexer_flags = [];
  size = pos 3000000000;
  release_type = codes "single";
}

abbrev pub remote : RemoteEpisode
remote = record {
  release = record {
    title = codes "Show.S01E02.1080p.WEB-DL-GRP";
    size = pos 3000000000;
    indexer = codes "idx";
    age = 0;
    protocol = codes "usenet";
    seeders = 0;
  };
  parsed_info = info;
  series_id = 7;
  episode_ids = 70 ∷ [];
  quality = info.quality;
  quality_id = 3;
  custom_formats = [];
  cf_score = pos 0;
  existing_file_quality_id = 0;
  existing_file_release_group = [];
}

-- The same release in a lower quality, with a higher score.
abbrev pub scored : RemoteEpisode
scored = record remote { quality_id = 4; cf_score = pos 10 }

abbrev pub profile : QualityProfile
profile = record {
  id = 1;
  name = codes "Any";
  upgrade_allowed = true;
  cutoff = 3;
  items =
      record { quality_id = 3; allowed = true } ∷ record { quality_id = 4; allowed = false } ∷ [];
  min_format_score = pos 0;
  cutoff_format_score = pos 0;
  format_items = [];
}

-- Sizes in whole megabytes stand for the floats.
abbrev pub is_positive : ℕ → Bool
is_positive n = ltb 0 n

abbrev pub megabytes : ℕ → ℤ
megabytes n = pos (n * 1048576)

abbrev pub compile : Text → Option (Text → Bool)
compile pattern = none

abbrev pub definitions : List (QualityDefinition ℕ)
definitions =
    record {
      id = 3;
      name = codes "WEBDL-1080p";
      source = codes "webdl";
      resolution = codes "1080p";
      min_size = 100;
      max_size = 4000;
      preferred_size = 2000;
    }
    ∷ []

abbrev entries : ℕ → Option (List Entry)
entries series = some (record { series_id = 7; source_title = codes "Show.S01E02.CAM" } ∷ [])

abbrev release_profiles : Option (List Profile)
release_profiles = some (
    record {
      id = 1;
      name = codes "p";
      enabled = true;
      required = codes "web" ∷ [];
      ignored = codes "hdcam" ∷ [];
      indexer_id = 0;
      tags = [];
    }
    ∷ [])

-- The sample is accepted.
sample_accepted :
    (evaluate
      (engine_specs is_positive megabytes compile definitions entries release_profiles)
      remote
      profile).0
    ≡ accept
unfolding evaluate engine_specs quality_allowed custom_format_score upgrade_allowed upgradable
    acceptable_size not_sample same_group_repack already_imported blocklisted release_profile
    profiles_for index_from profile_index Blocklist.matches ReleaseProfile.match text_eq contains
    lower term_matches
sample_accepted = refl

evaluate-IsAcceptable_example :
    ((evaluate
        (engine_specs is_positive megabytes compile definitions entries release_profiles)
        remote
        profile).0
      ≡ accept)
    ↔ IsAcceptable is_positive megabytes compile definitions entries release_profiles remote profile
evaluate-IsAcceptable_example =
    evaluate-IsAcceptable is_positive megabytes compile definitions entries release_profiles remote
      profile

evaluate_complete_example :
    let specs = engine_specs is_positive megabytes compile definitions entries release_profiles in
    ((evaluate specs scored profile).1 ≡ all_reasons specs scored profile)
    × (((evaluate specs scored profile).0 ≡ reject) ↔ (all_reasons specs scored profile ≢ []))
evaluate_complete_example =
    evaluate_complete
      (engine_specs is_positive megabytes compile definitions entries release_profiles) scored
      profile

rank_correct_example :
    Perm (rank (remote ∷ scored ∷ []) profile) (remote ∷ scored ∷ [])
    × BestFirst profile (rank (remote ∷ scored ∷ []) profile)
    × ((a : RemoteEpisode)
        → select (alike profile a) (rank (remote ∷ scored ∷ []) profile)
          ≡ select (alike profile a) (remote ∷ scored ∷ []))
rank_correct_example = rank_correct (remote ∷ scored ∷ []) profile

-- The higher score goes first.
rank_sample : rank (remote ∷ scored ∷ []) profile ≡ scored ∷ remote ∷ []
unfolding rank preferred quality_index index_from slice_stable
rank_sample = refl

release_profile_example :
    (ReleaseProfile.match compile
        (record {
          id = 1;
          name = codes "p";
          enabled = true;
          required = codes "web" ∷ [];
          ignored = codes "hdcam" ∷ [];
          indexer_id = 0;
          tags = [];
        })
        (codes "Show.WEB-DL")
      ≡ true)
    ↔ (All (λ t. term_matches compile t (codes "Show.WEB-DL") ≡ true) (codes "web" ∷ [])
        × All (λ t. term_matches compile t (codes "Show.WEB-DL") ≡ false) (codes "hdcam" ∷ []))
release_profile_example = Terms.match_iff compile _ (codes "Show.WEB-DL")
