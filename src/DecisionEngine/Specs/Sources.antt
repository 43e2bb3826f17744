-- ===== src/DecisionEngine/Specs/Sources.antt =====
-- What the specs accept that read quality definitions, the blocklist and the release profiles.
use sonarr.Common.{
  ℕ, ◌==◌, ◌≤ℤ◌, leb_ℤ, ℤ, pos, Bool, true, false, List, [], ◌∷◌, ◌≡◌, ◌≢◌, ◌↔◌, ◌⊎◌, inl, inr,
  refl, Option, none, some, Text, find, All, arith, Bool-cases, some_all_iff, ◌&&◌,
}
use sonarr.Profiles.{QualityProfile, QualityDefinition}
use sonarr.Blocklist.{Entry}
use sonarr.Blocklist.Matching.{matches-All}
use sonarr.ReleaseProfile
use sonarr.ReleaseProfile.{Profile}
use sonarr.DecisionEngine.Types.{accept, RemoteEpisode}
use sonarr.DecisionEngine.Engine.Verdict.{Accepts, IsHonest, reasons}
use sonarr.DecisionEngine.Specs.{
  def_for_quality, check_size, check_definition, acceptable_size, check_entries, blocklisted,
  check_profiles, check_listed, release_profile, global_profiles, profiles_for, already_imported,
}

module _ {Float : Type 0} (is_positive : Float → Bool) (megabytes : Float → ℤ) where
  -- A limit binds only if it is positive.
  abbrev pub Fits : ℤ → QualityDefinition Float → Type 0
  Fits size def =
      ((megabytes def.min_size ≤ℤ pos 0) ⊎ (megabytes def.min_size ≤ℤ size))
      × ((is_positive def.max_size ≡ false) ⊎ (size ≤ℤ megabytes def.max_size))

  -- The size is unknown, or no definition has the quality's id, or the first that does admits it.
  abbrev pub HasSize : List (QualityDefinition Float) → RemoteEpisode → Type 0
  HasSize defs remote =
      (remote.release.size ≡ pos 0)
      ⊎ ((d : QualityDefinition Float)
          → find (λ def. def.id == remote.quality_id) defs ≡ some d
          → Fits remote.release.size d)

  def_for_quality-find :
      (defs : List (QualityDefinition Float)) (q : ℕ)
      → def_for_quality is_positive megabytes defs q ≡ find (λ def. def.id == q) defs
  unfolding def_for_quality
  def_for_quality-find [] q = refl
  def_for_quality-find (d ∷ defs) q = ground (arith, def_for_quality-find defs q)

  check_size_iff :
      (size : ℤ) (d : QualityDefinition Float)
      → ((check_size is_positive megabytes size d).0 ≡ accept) ↔ Fits size d
  unfolding check_size
  check_size_iff size d = ground arith

  check_definition_iff :
      (size : ℤ) (found : Option (QualityDefinition Float))
      → ((check_definition is_positive megabytes size found).0 ≡ accept)
        ↔ ((d : QualityDefinition Float) → found ≡ some d → Fits size d)
  unfolding check_definition
  check_definition_iff size none = ((λ _ d e. cc), (λ _. refl))
  check_definition_iff size (some x) =
      let size_iff = check_size_iff size x in
      let all_iff = some_all_iff (Fits size) x in
      ((λ h. all_iff.0 (size_iff.0 h)), (λ h. size_iff.1 (all_iff.1 h)))

  size_known : (size : ℤ) → size ≡ pos 0 → leb_ℤ size (pos 0) && leb_ℤ (pos 0) size ≡ false → ⊥
  size_known size e known = ground arith

  pub acceptable_size_iff :
      (defs : List (QualityDefinition Float)) (remote : RemoteEpisode) (profile : QualityProfile)
      → Accepts remote profile (acceptable_size is_positive megabytes defs) ↔ HasSize defs remote
  unfolding acceptable_size
  acceptable_size_iff defs remote profile =
      elim (Bool-cases (leb_ℤ remote.release.size (pos 0) && leb_ℤ (pos 0) remote.release.size)) [
        | inl unknown ↦ rw unknown ((λ _. inl (ground arith)), (λ _. refl))
        | inr known ↦ rw known (
            rw (def_for_quality-find defs remote.quality_id) (
              let def_iff =
                check_definition_iff remote.release.size
                  (find (λ def. def.id == remote.quality_id) defs) in
              (
                (λ h. inr (def_iff.0 h)),
                (λ h. elim h [
                  | inl e ↦ absurd (size_known remote.release.size e known)
                  | inr f ↦ def_iff.1 f
                ]),
              )))
      ]

  pub acceptable_size-IsHonest :
      (defs : List (QualityDefinition Float))
      → IsHonest (acceptable_size is_positive megabytes defs)
  unfolding acceptable_size reasons
  acceptable_size-IsHonest defs remote profile = ground arith

-- No entry that is listed for the series has the title.
abbrev pub IsUnblocked : (ℕ → Option (List Entry)) → RemoteEpisode → Type 0
IsUnblocked list_by_series remote =
    (entries : List Entry)
    → list_by_series remote.series_id ≡ some entries
    → All (λ e. ¬ ((e.series_id ≡ remote.series_id) × (e.source_title ≡ remote.release.title)))
        entries

check_entries_iff :
    (found : Option (List Entry)) (remote : RemoteEpisode) (profile : QualityProfile)
    → ((check_entries found remote profile).0 ≡ accept) ↔ (
        (entries : List Entry)
        → found ≡ some entries
        → All
            (λ e. ¬ ((e.series_id ≡ remote.series_id) × (e.source_title ≡ remote.release.title)))
            entries)
unfolding check_entries
check_entries_iff none remote profile = ((λ _ es e. cc), (λ _. refl))
check_entries_iff (some es) remote profile =
    let all_iff =
      some_all_iff
        (All (λ e. ¬ ((e.series_id ≡ remote.series_id) × (e.source_title ≡ remote.release.title))))
        es in
    let matches_iff = matches-All es remote.series_id remote.release.title in
    ((λ h. all_iff.0 (matches_iff.0 (ground arith))), (λ h. rw (matches_iff.1 (all_iff.1 h))))

pub blocklisted_iff :
    (list_by_series : ℕ → Option (List Entry)) (remote : RemoteEpisode) (profile : QualityProfile)
    → Accepts remote profile (blocklisted (some list_by_series)) ↔ IsUnblocked list_by_series remote
unfolding blocklisted
blocklisted_iff list_by_series remote profile =
    check_entries_iff (list_by_series remote.series_id) remote profile

pub blocklisted-IsHonest :
    (list_by_series : ℕ → Option (List Entry)) → IsHonest (blocklisted (some list_by_series))
unfolding blocklisted reasons
blocklisted-IsHonest list_by_series remote profile = ground arith

pub already_imported-IsHonest : IsHonest already_imported
unfolding already_imported
already_imported-IsHonest remote profile = inl refl

module _ (compile : Text → Option (Text → Bool)) where
  -- Every enabled profile that no indexer owns lets the title through.
  abbrev pub Passes : List Profile → Text → Type 0
  Passes profiles title =
      All (λ p. p.enabled ≡ true → p.indexer_id ≡ 0 → ReleaseProfile.match compile p title ≡ true)
        profiles

  check_profiles_iff :
      (all : List Profile) (remote : RemoteEpisode) (profile : QualityProfile)
      → ((check_profiles compile (global_profiles all) remote profile).0 ≡ accept)
        ↔ Passes all remote.release.title
  unfolding check_profiles global_profiles
  check_profiles_iff [] remote profile = ((λ _. tt), (λ _. refl))
  check_profiles_iff (p ∷ all) remote profile =
      ground (arith, check_profiles_iff all remote profile)

  pub release_profile_iff :
      (listed : Option (List Profile)) (remote : RemoteEpisode) (profile : QualityProfile)
      → Accepts remote profile (release_profile compile (some (profiles_for listed)))
        ↔ ((all : List Profile) → listed ≡ some all → Passes all remote.release.title)
  unfolding release_profile profiles_for
  release_profile_iff none remote profile = ((λ _ es e. cc), (λ _. refl))
  release_profile_iff (some all) remote profile =
      let check_iff = check_profiles_iff all remote profile in
      let all_iff = some_all_iff (λ ps. Passes ps remote.release.title) all in
      ((λ h. all_iff.0 (check_iff.0 h)), (λ h. check_iff.1 (all_iff.1 h)))

  check_profiles_honest :
      (all : List Profile) (remote : RemoteEpisode) (profile : QualityProfile)
      → ((check_profiles compile all remote profile).0 ≡ accept)
        ⊎ (reasons (check_profiles compile all remote profile) ≢ [])
  unfolding check_profiles reasons
  check_profiles_honest [] remote profile = inl refl
  check_profiles_honest (p ∷ all) remote profile =
      ground (arith, check_profiles_honest all remote profile)

  check_listed_honest :
      (listed : Option (List Profile)) (remote : RemoteEpisode) (profile : QualityProfile)
      → ((check_listed compile listed remote profile).0 ≡ accept)
        ⊎ (reasons (check_listed compile listed remote profile) ≢ [])
  unfolding check_listed
  check_listed_honest none remote profile = inl refl
  check_listed_honest (some all) remote profile = check_profiles_honest all remote profile

  pub release_profile-IsHonest :
      (profiles_fn : ℕ → Text → Option (List Profile))
      → IsHonest (release_profile compile (some profiles_fn))
  unfolding release_profile
  release_profile-IsHonest profiles_fn remote profile =
      check_listed_honest (profiles_fn remote.series_id remote.release.indexer) remote profile
