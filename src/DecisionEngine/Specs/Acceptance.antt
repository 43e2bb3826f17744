-- ===== src/DecisionEngine/Specs/Acceptance.antt =====
-- When the engine that internal/app/app.go builds accepts a release.
use sonarr.Common.{
  ℕ, ◌≤ℤ◌, ℤ, pos, Bool, true, List, ◌≡◌, ◌≢◌, ◌↔◌, ◌⊎◌, refl, Option, some, Text, All,
}
use sonarr.Parser.Types.{repack}
use sonarr.Profiles.{QualityProfile, QualityDefinition}
use sonarr.Blocklist.{Entry}
use sonarr.ReleaseProfile.{Profile}
use sonarr.DecisionEngine.Types.{accept, RemoteEpisode, Spec}
use sonarr.DecisionEngine.Engine.{evaluate}
use sonarr.DecisionEngine.Engine.Verdict.{Accepts, IsHonest, evaluate-accept_iff}
use sonarr.DecisionEngine.Specs.{engine_specs, profiles_for, sample_threshold, already_imported}
use sonarr.DecisionEngine.Specs.Criteria.{
  IsAllowed, Precedes, quality_allowed_iff, custom_format_score_iff, upgrade_allowed_iff,
  upgradable_iff, not_sample_iff, same_group_repack_iff, quality_allowed-IsHonest,
  custom_format_score-IsHonest, upgrade_allowed-IsHonest, upgradable-IsHonest, not_sample-IsHonest,
  same_group_repack-IsHonest,
}
use sonarr.DecisionEngine.Specs.Sources.{
  HasSize, IsUnblocked, Passes, acceptable_size_iff, blocklisted_iff, release_profile_iff,
  acceptable_size-IsHonest, blocklisted-IsHonest, already_imported-IsHonest,
  release_profile-IsHonest,
}

module _ {Float : Type 0} (is_positive : Float → Bool) (megabytes : Float → ℤ)
    (compile : Text → Option (Text → Bool)) (defs : List (QualityDefinition Float))
    (list_by_series : ℕ → Option (List Entry)) (profiles : Option (List Profile)) where
  -- The criteria of the source's specs, each in its own words.
  pub record IsAcceptable (remote : RemoteEpisode) (profile : QualityProfile) : Type 0 where
    pub allowed : IsAllowed remote.quality_id profile.items
    pub scored : profile.min_format_score ≤ℤ remote.cf_score
    pub permitted : (remote.existing_file_quality_id ≡ 0) ⊎ (profile.upgrade_allowed ≡ true)
    pub better :
        (remote.existing_file_quality_id ≡ 0)
        ⊎ Precedes remote.quality_id remote.existing_file_quality_id profile.items
    pub sized : HasSize is_positive megabytes defs remote
    pub whole : (remote.release.size ≤ℤ pos 0) ⊎ (sample_threshold ≤ℤ remote.release.size)
    pub same_group :
        (remote.quality.modifier ≢ repack)
        ⊎ (remote.existing_file_quality_id ≡ 0)
        ⊎ (remote.parsed_info.release_group ≡ remote.existing_file_release_group)
    pub unblocked : IsUnblocked list_by_series remote
    pub passed :
        (all : List Profile) → profiles ≡ some all → Passes compile all remote.release.title

  abbrev specs : List Spec
  specs = engine_specs is_positive megabytes compile defs list_by_series profiles

  specs-IsHonest : All IsHonest specs
  unfolding engine_specs
  specs-IsHonest = (
    quality_allowed-IsHonest,
    (
      custom_format_score-IsHonest,
      (
        upgrade_allowed-IsHonest,
        (
          upgradable-IsHonest,
          (
            acceptable_size-IsHonest is_positive megabytes defs,
            (
              not_sample-IsHonest,
              (
                same_group_repack-IsHonest,
                (
                  already_imported-IsHonest,
                  (
                    blocklisted-IsHonest list_by_series,
                    (release_profile-IsHonest compile (profiles_for profiles), tt),
                  ),
                ),
              ),
            ),
          ),
        ),
      ),
    ),
  )

  module _ (remote : RemoteEpisode) (profile : QualityProfile) where
    to_IsAcceptable : All (Accepts remote profile) specs → IsAcceptable remote profile
    unfolding engine_specs
    to_IsAcceptable (a, (b, (c, (d, (e, (f, (g, (h, (i, (j, _)))))))))) = record {
      allowed = (quality_allowed_iff remote profile).0 a;
      scored = (custom_format_score_iff remote profile).0 b;
      permitted = (upgrade_allowed_iff remote profile).0 c;
      better = (upgradable_iff remote profile).0 d;
      sized = (acceptable_size_iff is_positive megabytes defs remote profile).0 e;
      whole = (not_sample_iff remote profile).0 f;
      same_group = (same_group_repack_iff remote profile).0 g;
      unblocked = (blocklisted_iff list_by_series remote profile).0 i;
      passed = (release_profile_iff compile profiles remote profile).0 j;
    }

    of_IsAcceptable : IsAcceptable remote profile → All (Accepts remote profile) specs
    unfolding engine_specs already_imported
    of_IsAcceptable x = (
      (quality_allowed_iff remote profile).1 x.allowed,
      (
        (custom_format_score_iff remote profile).1 x.scored,
        (
          (upgrade_allowed_iff remote profile).1 x.permitted,
          (
            (upgradable_iff remote profile).1 x.better,
            (
              (acceptable_size_iff is_positive megabytes defs remote profile).1 x.sized,
              (
                (not_sample_iff remote profile).1 x.whole,
                (
                  (same_group_repack_iff remote profile).1 x.same_group,
                  (
                    refl,
                    (
                      (blocklisted_iff list_by_series remote profile).1 x.unblocked,
                      ((release_profile_iff compile profiles remote profile).1 x.passed, tt),
                    ),
                  ),
                ),
              ),
            ),
          ),
        ),
      ),
    )

    -- The program's engine accepts a release exactly when it meets every criterion: an allowed
    -- quality, the minimum score, an upgrade that the profile permits and that is one, a size in
    -- range and no sample's, a repack's own group, no blocklist entry, and every release profile.
    pub evaluate-IsAcceptable :
        ((evaluate specs remote profile).0 ≡ accept) ↔ IsAcceptable remote profile
    evaluate-IsAcceptable =
        let accept_iff = evaluate-accept_iff specs remote profile specs-IsHonest in
        ((λ h. to_IsAcceptable (accept_iff.0 h)), (λ x. accept_iff.1 (of_IsAcceptable x)))
