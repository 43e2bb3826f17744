-- ===== src/DelayProfile.antt =====
-- internal/delayprofile/delayprofile.go: which delay profile a series has, and its delays.
pub mod Choice
use sonarr.Common.{
  ℕ, ◌==◌, ℤ, Bool, true, false, ◌||◌, List, [], ◌∷◌, Option, none, some, if◌then◌else◌, any,
}

pub data Protocol : Type 0 where
  usenet torrent : Protocol

-- Delays are minutes.
pub record Profile : Type 0 where
  pub id : ℕ
  pub enable_usenet : Bool
  pub enable_torrent : Bool
  pub preferred_protocol : Protocol
  pub usenet_delay : ℤ
  pub torrent_delay : ℤ
  pub order : ℤ
  pub bypass_if_highest_quality : Bool
  pub bypass_if_above_custom_format_score : Bool
  pub minimum_custom_format_score : ℤ
  pub tags : List ℕ

unfoldable pub protocol_delay : Profile → Protocol → ℤ
protocol_delay p torrent = p.torrent_delay
protocol_delay p usenet = p.usenet_delay

-- The tests on one profile's tags.
unfoldable pub applies : List ℕ → List ℕ → Bool
applies series_tags [] = true
applies series_tags (tag ∷ tags) = any (λ t. any (λ s. s == t) series_tags) (tag ∷ tags)

unfoldable pub applicable_profile : List Profile → List ℕ → Option Profile
unfolding applies
applicable_profile [] series_tags = none
applicable_profile (p ∷ profiles) series_tags =
    if applies series_tags p.tags then some p else applicable_profile profiles series_tags
