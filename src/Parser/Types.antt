-- ===== src/Parser/Types.antt =====
-- internal/parser/types.go: what a release title says. The string enumerations are data types with
-- their texts; a season, episode or year is read from digits, so it is a natural number.
use sonarr.Common.{ℕ, Text, codes, ℤ, Option, List}

pub data QualitySource : Type 0 where
  source_unknown television web_dl web_rip bluray dvd remux : QualitySource

unfoldable pub source_text : QualitySource → Text
source_text source_unknown = codes ""
source_text television = codes "television"
source_text web_dl = codes "webdl"
source_text web_rip = codes "webrip"
source_text bluray = codes "bluray"
source_text dvd = codes "dvd"
source_text remux = codes "remux"

pub data Resolution : Type 0 where
  resolution_unknown p480 p576 p720 p1080 p2160 : Resolution

unfoldable pub resolution_text : Resolution → Text
resolution_text resolution_unknown = codes ""
resolution_text p480 = codes "480p"
resolution_text p576 = codes "576p"
resolution_text p720 = codes "720p"
resolution_text p1080 = codes "1080p"
resolution_text p2160 = codes "2160p"

pub data Modifier : Type 0 where
  unmodified proper repack real : Modifier

pub record ParsedQuality : Type 0 where
  pub source : QualitySource
  pub resolution : Resolution
  pub modifier : Modifier
  pub revision : ℕ

pub data SeriesType : Type 0 where
  untyped standard daily anime : SeriesType

-- The year, month and day handed to `time.Date`, which normalises them.
pub record AirDate : Type 0 where
  pub year : ℕ
  pub month : ℕ
  pub day : ℕ

pub record ParsedEpisodeInfo : Type 0 where
  pub series_title : Text
  pub series_type : SeriesType
  pub season_number : ℕ
  pub episode_numbers : List ℕ
  pub absolute_episode_numbers : List ℕ
  pub air_date : Option AirDate
  pub year : ℕ
  pub release_group : Text
  pub quality : ParsedQuality
  pub release_title : Text
  pub languages : List Text
  pub indexer_flags : List Text
  pub size : ℤ
  pub release_type : Text
