-- ===== src/DecisionEngine/Specs/Criteria.antt =====
-- What each spec that reads only the release and the profile accepts.
use sonarr.Common.{
  ℕ, suc, ◌+◌, ◌≤◌, ◌<◌, ◌==◌, pos, ◌≤ℤ◌, true, List, [], ◌∷◌, ◌≡◌, ◌≢◌, ◌↔◌, ◌⊎◌, inl, inr, refl,
  some, text_eq_iff, length, find, arith, Bool-cases,
}
use sonarr.Parser.Types.{repack}
use sonarr.Profiles.{QualityProfile, QualityProfileItem}
use sonarr.DecisionEngine.Types.{accept, RemoteEpisode}
use sonarr.DecisionEngine.Engine.{index_from}
use sonarr.DecisionEngine.Engine.Verdict.{Accepts, IsHonest, reasons}
use sonarr.DecisionEngine.Specs.{
  check_items, quality_allowed, custom_format_score, upgrade_allowed, profile_index, upgradable,
  sample_threshold, not_sample, same_group_repack,
}

-- The first item of the quality is an allowed one.
abbrev pub IsAllowed : ℕ → List QualityProfileItem → Type 0
IsAllowed quality items =
    (item : QualityProfileItem) × (find (λ i. i.quality_id == quality) items ≡ some item)
    × (item.allowed ≡ true)

check_items_iff :
    (quality : ℕ) (items : List QualityProfileItem)
    → ((check_items quality items).0 ≡ accept) ↔ IsAllowed quality items
unfolding check_items
check_items_iff quality [] = ground arith
check_items_iff quality (item ∷ items) = elim (Bool-cases (item.quality_id == quality)) [
  | inl hit ↦ rw hit ((λ h. (item, refl, ground arith)), (λ (x, e, a). ground arith))
  | inr miss ↦ rw miss (check_items_iff quality items)
]

check_items_honest :
    (quality : ℕ) (items : List QualityProfileItem)
    → ((check_items quality items).0 ≡ accept) ⊎ (reasons (check_items quality items) ≢ [])
unfolding check_items reasons
check_items_honest quality [] = ground arith
check_items_honest quality (item ∷ items) = ground (arith, check_items_honest quality items)

pub quality_allowed_iff :
    (remote : RemoteEpisode) (profile : QualityProfile)
    → Accepts remote profile quality_allowed ↔ IsAllowed remote.quality_id profile.items
unfolding quality_allowed
quality_allowed_iff remote profile = check_items_iff remote.quality_id profile.items

pub custom_format_score_iff :
    (remote : RemoteEpisode) (profile : QualityProfile)
    → Accepts remote profile custom_format_score ↔ (profile.min_format_score ≤ℤ remote.cf_score)
unfolding custom_format_score
custom_format_score_iff remote profile = ground arith

pub upgrade_allowed_iff :
    (remote : RemoteEpisode) (profile : QualityProfile)
    → Accepts remote profile upgrade_allowed
      ↔ ((remote.existing_file_quality_id ≡ 0) ⊎ (profile.upgrade_allowed ≡ true))
unfolding upgrade_allowed
upgrade_allowed_iff remote profile = ground arith

-- An item of the first quality stands before every item of the second.
abbrev pub Precedes : ℕ → ℕ → List QualityProfileItem → Type 0
Precedes q e [] = ⊥
Precedes q e (item ∷ items) = (item.quality_id ≢ e) × ((item.quality_id ≡ q) ⊎ Precedes q e items)

index_from_le :
    (i : ℕ) (items : List QualityProfileItem) (q n : ℕ)
    → n ≡ i + length items
    → (i ≤ index_from i items q n) × (index_from i items q n ≤ n)
unfolding index_from
index_from_le i [] q n h = omega arith
index_from_le i (item ∷ items) q n h = ground (arith, index_from_le (suc i) items q n (omega arith))

index_from_lt :
    (i : ℕ) (items : List QualityProfileItem) (q e n : ℕ)
    → n ≡ i + length items
    → (index_from i items q n < index_from i items e n) ↔ Precedes q e items
unfolding index_from
index_from_lt i [] q e n h = ((λ k. omega arith), (λ k. absurd k))
index_from_lt i (item ∷ items) q e n h = ground (
  arith,
  index_from_lt (suc i) items q e n (omega arith),
  index_from_le (suc i) items q n (omega arith),
  index_from_le (suc i) items e n (omega arith),
)

pub upgradable_iff :
    (remote : RemoteEpisode) (profile : QualityProfile)
    → Accepts remote profile upgradable ↔ (
        (remote.existing_file_quality_id ≡ 0)
        ⊎ Precedes remote.quality_id remote.existing_file_quality_id profile.items)
unfolding upgradable profile_index
upgradable_iff remote profile = ground (
  arith,
  index_from_lt 0 profile.items remote.quality_id remote.existing_file_quality_id
      (length profile.items) (omega arith),
)

pub not_sample_iff :
    (remote : RemoteEpisode) (profile : QualityProfile)
    → Accepts remote profile not_sample
      ↔ ((remote.release.size ≤ℤ pos 0) ⊎ (sample_threshold ≤ℤ remote.release.size))
unfolding not_sample
not_sample_iff remote profile = ground arith

pub same_group_repack_iff :
    (remote : RemoteEpisode) (profile : QualityProfile)
    → Accepts remote profile same_group_repack ↔ (
        (remote.quality.modifier ≢ repack)
        ⊎ (remote.existing_file_quality_id ≡ 0)
        ⊎ (remote.parsed_info.release_group ≡ remote.existing_file_release_group))
unfolding same_group_repack
same_group_repack_iff remote profile =
    ground (arith, text_eq_iff remote.parsed_info.release_group remote.existing_file_release_group)

-- Every one of these specs gives a reason when it rejects.
pub quality_allowed-IsHonest : IsHonest quality_allowed
unfolding quality_allowed
quality_allowed-IsHonest remote profile = check_items_honest remote.quality_id profile.items

pub custom_format_score-IsHonest : IsHonest custom_format_score
unfolding custom_format_score reasons
custom_format_score-IsHonest remote profile = ground arith

pub upgrade_allowed-IsHonest : IsHonest upgrade_allowed
unfolding upgrade_allowed reasons
upgrade_allowed-IsHonest remote profile = ground arith

pub upgradable-IsHonest : IsHonest upgradable
unfolding upgradable reasons
upgradable-IsHonest remote profile = ground arith

pub not_sample-IsHonest : IsHonest not_sample
unfolding not_sample reasons
not_sample-IsHonest remote profile = ground arith

pub same_group_repack-IsHonest : IsHonest same_group_repack
unfolding same_group_repack reasons
same_group_repack-IsHonest remote profile = ground arith
