-- ===== src/DecisionEngine/Types.antt =====
-- internal/decisionengine/types.go: decisions, rejections, releases and specs. The text of a reason
-- is a value that carries the arguments of its format string.
use sonarr.Common.{ℕ, Text, ℤ, List}
use sonarr.Parser.Types.{ParsedEpisodeInfo, ParsedQuality}
use sonarr.Profiles.{QualityProfile}

pub data Decision : Type 0 where
  accept reject : Decision

pub data RejectionType : Type 0 where
  permanent temporary : RejectionType

pub data Reason : Type 0 where
  quality_not_allowed : ℕ → Reason
  quality_not_in_profile : ℕ → Reason
  score_below_minimum : ℤ → ℤ → Reason
  upgrade_not_allowed : Reason
  not_an_upgrade : Reason
  size_below_minimum : ℤ → ℤ → Text → Reason
  size_above_maximum : ℤ → ℤ → Text → Reason
  sample_size : ℤ → Reason
  repack_group_differs : Text → Text → Reason
  title_blocklisted : Text → ℕ → Reason
  release_profile_rejected : Text → Text → Reason

pub data SpecName : Type 0 where
  quality_allowed_spec custom_format_score_spec upgrade_allowed_spec upgradable_spec : SpecName
  acceptable_size_spec not_sample_spec repack_spec already_imported_spec blocklisted_spec : SpecName
  release_profile_spec : SpecName

pub record Rejection : Type 0 where
  pub type : RejectionType
  pub reason : Reason
  pub spec : SpecName

-- Sizes are signed, as the source's `int64`.
pub record Release : Type 0 where
  pub title : Text
  pub size : ℤ
  pub indexer : Text
  pub age : ℕ
  pub protocol : Text
  pub seeders : ℕ

pub record RemoteEpisode : Type 0 where
  pub release : Release
  pub parsed_info : ParsedEpisodeInfo
  pub series_id : ℕ
  pub episode_ids : List ℕ
  pub quality : ParsedQuality
  pub quality_id : ℕ
  pub custom_formats : List ℕ
  pub cf_score : ℤ
  pub existing_file_quality_id : ℕ
  pub existing_file_release_group : Text

-- A spec's `Evaluate`: its decision and its rejections.
abbrev pub Spec : Type 0
Spec = RemoteEpisode → QualityProfile → Decision × List Rejection
