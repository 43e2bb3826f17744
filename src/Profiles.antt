-- ===== src/Profiles.antt =====
-- internal/profiles/quality.go: quality definitions and profiles. Sizes of a definition are Go
-- floats, an abstract type here; ids are natural numbers and scores are signed.
use sonarr.Common.{ℕ, Text, ℤ, Bool, List}

pub record QualityDefinition (Float : Type 0) : Type 0 where
  pub id : ℕ
  pub name : Text
  pub source : Text
  pub resolution : Text
  pub min_size : Float
  pub max_size : Float
  pub preferred_size : Float

pub record QualityProfileItem : Type 0 where
  pub quality_id : ℕ
  pub allowed : Bool

pub record FormatScoreItem : Type 0 where
  pub format_id : ℕ
  pub score : ℤ

-- The order of `items` is the preference, best first.
pub record QualityProfile : Type 0 where
  pub id : ℕ
  pub name : Text
  pub upgrade_allowed : Bool
  pub cutoff : ℕ
  pub items : List QualityProfileItem
  pub min_format_score : ℤ
  pub cutoff_format_score : ℤ
  pub format_items : List FormatScoreItem
