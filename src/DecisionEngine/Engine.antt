-- ===== src/DecisionEngine/Engine.antt =====
-- internal/decisionengine/engine.go: `Evaluate` runs every spec, `Rank` orders what was accepted.
pub mod Verdict
pub mod Ranking
use sonarr.Common.{
  ℕ, suc, ◌==◌, ltb, eqb_ℤ, ltb_ℤ, Bool, not, List, [], ◌∷◌, ◌++◌, if◌then◌else◌, length,
}
use sonarr.Common.Sort.{slice_stable}
use sonarr.Profiles.{QualityProfile, QualityProfileItem}
use sonarr.DecisionEngine.Types.{Decision, accept, reject, Rejection, RemoteEpisode, Spec}

-- `if d == Reject { rejections = append(rejections, r...) }`.
append_rejections : List Rejection → Decision × List Rejection → List Rejection
append_rejections rejections (accept, r) = rejections
append_rejections rejections (reject, r) = rejections ++ r

-- The loop over the specs.
collect : List Rejection → List Spec → RemoteEpisode → QualityProfile → List Rejection
unfolding append_rejections
collect rejections [] remote profile = rejections
collect rejections (s ∷ specs) remote profile =
    collect (append_rejections rejections (s remote profile)) specs remote profile

verdict : List Rejection → Decision × List Rejection
verdict [] = (accept, [])
verdict (r ∷ rs) = (reject, r ∷ rs)

unfoldable pub evaluate : List Spec → RemoteEpisode → QualityProfile → Decision × List Rejection
unfolding collect verdict
evaluate specs remote profile = verdict (collect [] specs remote profile)

-- The loop of `qualityIndex` and of `profileIndex`: `i` counts the items passed, and `n` is the
-- answer for a quality that is not in the profile.
unfoldable pub index_from : ℕ → List QualityProfileItem → ℕ → ℕ → ℕ
index_from i [] quality n = n
index_from i (item ∷ items) quality n =
    if item.quality_id == quality then i else index_from (suc i) items quality n

unfoldable pub quality_index : RemoteEpisode → QualityProfile → ℕ
quality_index remote profile = index_from 0 profile.items remote.quality_id (length profile.items)

-- The `less` of `Rank`: a higher score, then a better quality, then a larger size.
unfoldable pub preferred : QualityProfile → RemoteEpisode → RemoteEpisode → Bool
preferred profile a b =
    if not (eqb_ℤ a.cf_score b.cf_score)
    then ltb_ℤ b.cf_score a.cf_score
    else if not (quality_index a profile == quality_index b profile)
    then ltb (quality_index a profile) (quality_index b profile)
    else ltb_ℤ b.release.size a.release.size

unfoldable pub rank : List RemoteEpisode → QualityProfile → List RemoteEpisode
rank remotes profile = slice_stable (preferred profile) remotes
