-- ===== src/DecisionEngine/Specs.antt =====
-- internal/decisionengine/specs: the ten specs, one function each, in the order in which
-- internal/app/app.go composes them.
pub mod Criteria
pub mod Sources
pub mod Acceptance
use sonarr.Common.{
  ℕ, ◌*◌, ◌==◌, leb, ltb_ℤ, leb_ℤ, ℤ, pos, Bool, true, false, ◌&&◌, List, [], ◌∷◌, Option, none,
  some, Text, text_eq, if◌then◌else◌, length,
}
use sonarr.Parser.Types.{Modifier, repack}
use sonarr.Profiles.{QualityProfile, QualityProfileItem, QualityDefinition}
use sonarr.Blocklist
use sonarr.Blocklist.{Entry}
use sonarr.ReleaseProfile
use sonarr.ReleaseProfile.{Profile}
use sonarr.DecisionEngine.Types.{
  Decision, accept, reject, permanent, Reason, quality_not_allowed, quality_not_in_profile,
  score_below_minimum, upgrade_not_allowed, not_an_upgrade, size_below_minimum, size_above_maximum,
  sample_size, repack_group_differs, title_blocklisted, release_profile_rejected, SpecName,
  quality_allowed_spec, custom_format_score_spec, upgrade_allowed_spec, upgradable_spec,
  acceptable_size_spec, not_sample_spec, repack_spec, blocklisted_spec, release_profile_spec,
  Rejection, Spec,
}
use sonarr.DecisionEngine.Engine.{index_from}

-- `return Accept, nil`.
abbrev pub accepted : Decision × List Rejection
accepted = (accept, [])

-- `return Reject, []Rejection{{Type: Permanent, ...}}`.
abbrev pub rejected : Reason → SpecName → Decision × List Rejection
rejected reason spec = (reject, record { type = permanent; reason = reason; spec = spec } ∷ [])

-- The loop of `QualityAllowedSpec.Evaluate`: the first item of the quality decides.
check_items : ℕ → List QualityProfileItem → Decision × List Rejection
check_items quality [] = rejected (quality_not_in_profile quality) quality_allowed_spec
check_items quality (item ∷ items) =
    if item.quality_id == quality
    then if item.allowed
      then accepted
      else rejected (quality_not_allowed quality) quality_allowed_spec
    else check_items quality items

unfoldable pub quality_allowed : Spec
unfolding check_items
quality_allowed remote profile = check_items remote.quality_id profile.items

unfoldable pub custom_format_score : Spec
custom_format_score remote profile =
    if leb_ℤ profile.min_format_score remote.cf_score
    then accepted
    else rejected (score_below_minimum remote.cf_score profile.min_format_score)
        custom_format_score_spec

unfoldable pub upgrade_allowed : Spec
upgrade_allowed remote profile =
    if remote.existing_file_quality_id == 0
    then accepted
    else if profile.upgrade_allowed
    then accepted
    else rejected upgrade_not_allowed upgrade_allowed_spec

unfoldable pub profile_index : ℕ → QualityProfile → ℕ
profile_index quality profile = index_from 0 profile.items quality (length profile.items)

unfoldable pub upgradable : Spec
upgradable remote profile =
    if remote.existing_file_quality_id == 0
    then accepted
    else if leb (profile_index remote.existing_file_quality_id profile)
        (profile_index remote.quality_id profile)
    then rejected not_an_upgrade upgradable_spec
    else accepted

-- Sizes of a definition are floats: `megabytes` is `int64(x * mb)` and `is_positive` is `x > 0`.
module _ {Float : Type 0} (is_positive : Float → Bool) (megabytes : Float → ℤ) where
  def_for_quality : List (QualityDefinition Float) → ℕ → Option (QualityDefinition Float)
  def_for_quality [] quality = none
  def_for_quality (d ∷ defs) quality =
      if d.id == quality then some d else def_for_quality defs quality

  check_size : ℤ → QualityDefinition Float → Decision × List Rejection
  check_size size def =
      let min_bytes = megabytes def.min_size in
      let max_bytes = megabytes def.max_size in
      if ltb_ℤ (pos 0) min_bytes && ltb_ℤ size min_bytes
      then rejected (size_below_minimum size min_bytes def.name) acceptable_size_spec
      else if is_positive def.max_size && ltb_ℤ max_bytes size
      then rejected (size_above_maximum size max_bytes def.name) acceptable_size_spec
      else accepted

  check_definition : ℤ → Option (QualityDefinition Float) → Decision × List Rejection
  check_definition size none = accepted
  check_definition size (some def) = check_size size def

  unfoldable pub acceptable_size : List (QualityDefinition Float) → Spec
  unfolding def_for_quality check_size check_definition
  acceptable_size defs remote profile =
      if leb_ℤ remote.release.size (pos 0) && leb_ℤ (pos 0) remote.release.size
      then accepted
      else check_definition remote.release.size (def_for_quality defs remote.quality_id)

abbrev pub sample_threshold : ℤ
sample_threshold = pos (40 * 1024 * 1024)

unfoldable pub not_sample : Spec
not_sample remote profile =
    if ltb_ℤ (pos 0) remote.release.size && ltb_ℤ remote.release.size sample_threshold
    then rejected (sample_size remote.release.size) not_sample_spec
    else accepted

is_repack : Modifier → Bool
is_repack repack = true
is_repack _ = false

unfoldable pub same_group_repack : Spec
unfolding is_repack
same_group_repack remote profile =
    if is_repack remote.quality.modifier
    then if remote.existing_file_quality_id == 0
      then accepted
      else if text_eq remote.parsed_info.release_group remote.existing_file_release_group
      then accepted
      else rejected
          (repack_group_differs remote.parsed_info.release_group remote.existing_file_release_group)
          repack_spec
    else accepted

unfoldable pub already_imported : Spec
already_imported remote profile = accepted

-- The store is `none` for a nil store; listing the entries of a series is `none` on an error.
check_entries : Option (List Entry) → Spec
check_entries none remote profile = accepted
check_entries (some entries) remote profile =
    if Blocklist.matches entries remote.series_id remote.release.title
    then rejected (title_blocklisted remote.release.title remote.series_id) blocklisted_spec
    else accepted

unfoldable pub blocklisted : Option (ℕ → Option (List Entry)) → Spec
unfolding check_entries
blocklisted none remote profile = accepted
blocklisted (some list_by_series) remote profile =
    check_entries (list_by_series remote.series_id) remote profile

module _ (compile : Text → Option (Text → Bool)) where
  check_profiles : List Profile → Spec
  check_profiles [] remote profile = accepted
  check_profiles (p ∷ profiles) remote profile =
      let rest = check_profiles profiles remote profile in
      if p.enabled
      then if ReleaseProfile.match compile p remote.release.title
        then rest
        else rejected (release_profile_rejected p.name remote.release.title) release_profile_spec
      else rest

  check_listed : Option (List Profile) → Spec
  unfolding check_profiles
  check_listed none remote profile = accepted
  check_listed (some profiles) remote profile = check_profiles profiles remote profile

  unfoldable pub release_profile : Option (ℕ → Text → Option (List Profile)) → Spec
  unfolding check_listed
  release_profile none remote profile = accepted
  release_profile (some profiles_fn) remote profile =
      check_listed (profiles_fn remote.series_id remote.release.indexer) remote profile

-- `ProfilesFn` of internal/app/app.go: the enabled profiles that are not bound to an indexer.
global_profiles : List Profile → List Profile
global_profiles [] = []
global_profiles (p ∷ all) =
    let rest = global_profiles all in
    if p.enabled then if p.indexer_id == 0 then p ∷ rest else rest else rest

unfoldable pub profiles_for : Option (List Profile) → ℕ → Text → Option (List Profile)
unfolding global_profiles
profiles_for none series indexer = none
profiles_for (some all) series indexer = some (global_profiles all)

-- The engine that internal/app/app.go builds.
module _ {Float : Type 0} (is_positive : Float → Bool) (megabytes : Float → ℤ)
    (compile : Text → Option (Text → Bool)) where
  unfoldable pub engine_specs :
      List (QualityDefinition Float) → (ℕ → Option (List Entry)) → Option (List Profile) → List Spec
  engine_specs defs list_by_series profiles =
      quality_allowed
      ∷ custom_format_score
      ∷ upgrade_allowed
      ∷ upgradable
      ∷ acceptable_size is_positive megabytes defs
      ∷ not_sample
      ∷ same_group_repack
      ∷ already_imported
      ∷ blocklisted (some list_by_series)
      ∷ release_profile compile (some (profiles_for profiles))
      ∷ []
