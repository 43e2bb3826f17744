-- ===== src/Samples/Stores.antt =====
-- Monitor modes, delay profiles and path mappings at concrete inputs.
use sonarr.Common.{
  inl, codes, text_eq, lower, cut_prefix, pos, true, false, List, [], ◌∷◌, none, some, ◌≡◌, refl,
  arith,
}
use sonarr.Library.{saved, Episode}
use sonarr.Library.MonitorMode.{pilot, apply_monitor_mode, finished}
use sonarr.Library.MonitorMode.Choice.{IsMarked, AllMarked, apply_monitor_mode-AllMarked}
use sonarr.DelayProfile.{Profile, usenet, applicable_profile, applies}
use sonarr.DelayProfile.Choice.{IsFirst, applicable_profile-IsFirst}
use sonarr.RemotePathMapping.{
  Mapping, translate, strip_trailing_sep, at_boundary, rewrite_path, is_sep,
}

abbrev first_episode : Episode
first_episode = record {
  id = 1;
  series_id = 7;
  season_number = 1;
  episode_number = 1;
  title = codes "Pilot";
  air_date_utc = none;
  monitored = false;
  episode_file_id = none;
}

abbrev table : List Episode
table =
    first_episode
    ∷ record first_episode { id = 2; episode_number = 2; monitored = true }
    ∷ record first_episode { id = 3; series_id = 8; monitored = true }
    ∷ []

apply_monitor_mode-AllMarked_example :
    ((apply_monitor_mode true (λ _. saved) 0 7 (codes "pilot") table).1 ≡ finished)
    × AllMarked
        (IsMarked pilot 0 7 table)
        table
        (apply_monitor_mode true (λ _. saved) 0 7 (codes "pilot") table).0
apply_monitor_mode-AllMarked_example =
    apply_monitor_mode-AllMarked (λ _. saved) 0 7 (codes "pilot") pilot table
      (((λ e. omega arith), ((λ e. omega arith), tt)), (((λ e. omega arith), tt), (tt, tt)))
      (λ _. refl) (inl refl)

abbrev anything : Profile
anything = record {
  id = 1;
  enable_usenet = true;
  enable_torrent = true;
  preferred_protocol = usenet;
  usenet_delay = pos 0;
  torrent_delay = pos 0;
  order = pos 9;
  bypass_if_highest_quality = true;
  bypass_if_above_custom_format_score = false;
  minimum_custom_format_score = pos 0;
  tags = [];
}

abbrev tagged : Profile
tagged = record anything { id = 2; order = pos 1; usenet_delay = pos 60; tags = 4 ∷ 5 ∷ [] }

delay_sample : applicable_profile (tagged ∷ anything ∷ []) (5 ∷ []) ≡ some tagged
unfolding applicable_profile applies
delay_sample = refl

applicable_profile-IsFirst_example :
    IsFirst (tagged ∷ anything ∷ []) (7 ∷ []) (applicable_profile (tagged ∷ anything ∷ []) (7 ∷ []))
applicable_profile-IsFirst_example = applicable_profile-IsFirst (tagged ∷ anything ∷ []) (7 ∷ [])

abbrev mapping : Mapping
mapping = record {
  id = 1;
  host = codes "Sab.local";
  remote_path = codes "/downloads/";
  local_path = codes "/mnt/nas/downloads/";
}

translate_sample :
    translate (mapping ∷ []) (codes "sab.LOCAL") (codes "/downloads/show")
    ≡ codes "/mnt/nas/downloads/show"
unfolding translate text_eq lower rewrite_path cut_prefix strip_trailing_sep at_boundary is_sep
translate_sample = refl
