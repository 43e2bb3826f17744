-- ===== src/DecisionEngine/Engine/Ranking.antt =====
-- What `Rank` promises: a permutation, best first, that keeps the order of equals.
use mathlib.Core.List.{Perm}
use sonarr.Common.{
  ◌==◌, eqb_ℤ, Bool, true, false, List, [], ◌∷◌, ◌≡◌, ◌⊎◌, ◌<ℤ◌, ◌≤ℤ◌, ◌<◌, arith, All, select,
  ◌&&◌,
}
use sonarr.Common.Sort.{
  IsStrictWeak, IsSorted, slice_stable-perm, slice_stable-IsSorted, select-slice_stable,
}
use sonarr.Profiles.{QualityProfile}
use sonarr.DecisionEngine.Types.{RemoteEpisode}
use sonarr.DecisionEngine.Engine.{quality_index, preferred, rank}

-- The documented order: a higher score, then a better quality, then a larger size.
abbrev pub Better : QualityProfile → RemoteEpisode → RemoteEpisode → Type 0
Better profile a b =
    (b.cf_score <ℤ a.cf_score)
    ⊎ ((a.cf_score ≡ b.cf_score) × (quality_index a profile < quality_index b profile))
    ⊎ ((a.cf_score ≡ b.cf_score)
        × (quality_index a profile ≡ quality_index b profile)
        × (b.release.size <ℤ a.release.size))

pub preferred-Better :
    (profile : QualityProfile) (a b : RemoteEpisode)
    → preferred profile a b ≡ true
    → Better profile a b
unfolding preferred
preferred-Better profile a b h = ground arith

pub Better-preferred :
    (profile : QualityProfile) (a b : RemoteEpisode)
    → Better profile a b
    → preferred profile a b ≡ true
unfolding preferred
Better-preferred profile a b h = ground arith

-- `a` is at least as good as `b`, as orders and equations between natural numbers.
abbrev AtLeast : QualityProfile → RemoteEpisode → RemoteEpisode → Type 0
AtLeast profile a b =
    (b.cf_score <ℤ a.cf_score)
    ⊎ (SameScore × (quality_index a profile < quality_index b profile))
    ⊎ (SameScore
        × (quality_index a profile ≡ quality_index b profile)
        × (b.release.size ≤ℤ a.release.size))
  where
    SameScore : Type 0
    SameScore = (a.cf_score ≤ℤ b.cf_score) × (b.cf_score ≤ℤ a.cf_score)

preferred-AtLeast :
    (profile : QualityProfile) (a b : RemoteEpisode)
    → preferred profile a b ≡ false
    → AtLeast profile b a
unfolding preferred
preferred-AtLeast profile a b h = ground arith

AtLeast-preferred :
    (profile : QualityProfile) (a b : RemoteEpisode)
    → AtLeast profile b a
    → preferred profile a b ≡ false
unfolding preferred
AtLeast-preferred profile a b h = ground arith

AtLeast-trans :
    (profile : QualityProfile) (a b c : RemoteEpisode)
    → AtLeast profile c b
    → AtLeast profile b a
    → AtLeast profile c a
AtLeast-trans profile a b c h k = omega arith

preferred-asym :
    (profile : QualityProfile) (a b : RemoteEpisode)
    → preferred profile a b ≡ true
    → preferred profile b a ≡ false
unfolding preferred
preferred-asym profile a b h = ground arith

preferred-IsStrictWeak : (profile : QualityProfile) → IsStrictWeak (preferred profile)
preferred-IsStrictWeak profile = record {
  asym = preferred-asym profile;
  trans = λ a b c h k. AtLeast-preferred profile a c (
      AtLeast-trans profile a b c (preferred-AtLeast profile b c k)
        (preferred-AtLeast profile a b h));
}

-- No later release of a ranking is better than an earlier one.
abbrev pub BestFirst : QualityProfile → List RemoteEpisode → Type 0
BestFirst profile [] = Unit
BestFirst profile (a ∷ rest) = All (λ b. ¬ Better profile b a) rest × BestFirst profile rest

none-Better :
    (profile : QualityProfile) (a : RemoteEpisode) (bs : List RemoteEpisode)
    → All (λ b. preferred profile b a ≡ false) bs
    → All (λ b. ¬ Better profile b a) bs
none-Better profile a [] h = tt
none-Better profile a (b ∷ bs) (e, h) =
    ((λ x. cc (Better-preferred profile b a x)), none-Better profile a bs h)

IsSorted-BestFirst :
    (profile : QualityProfile) (rest : List RemoteEpisode)
    → IsSorted (preferred profile) rest
    → BestFirst profile rest
IsSorted-BestFirst profile [] h = tt
IsSorted-BestFirst profile (a ∷ rest) (e, h) =
    (none-Better profile a rest e, IsSorted-BestFirst profile rest h)

-- Releases alike to a given one in score, quality and size.
abbrev pub alike : QualityProfile → RemoteEpisode → RemoteEpisode → Bool
alike profile a b =
    eqb_ℤ a.cf_score b.cf_score
    && ((quality_index a profile == quality_index b profile) && eqb_ℤ a.release.size b.release.size)

alike_flat :
    (profile : QualityProfile) (a x y : RemoteEpisode)
    → alike profile a x ≡ true
    → alike profile a y ≡ true
    → preferred profile y x ≡ false
unfolding preferred
alike_flat profile a x y h k = ground arith

-- Ranking permutes the releases, puts no release before a better one, and keeps releases of equal
-- score, quality and size in the order in which they came.
pub rank_correct :
    (remotes : List RemoteEpisode) (profile : QualityProfile)
    → Perm (rank remotes profile) remotes
      × BestFirst profile (rank remotes profile)
      × ((a : RemoteEpisode)
          → select (alike profile a) (rank remotes profile) ≡ select (alike profile a) remotes)
unfolding rank
rank_correct remotes profile = (
  slice_stable-perm (preferred profile) remotes,
  IsSorted-BestFirst profile _
      (slice_stable-IsSorted (preferred profile) (preferred-IsStrictWeak profile) remotes),
  (λ a. select-slice_stable (preferred profile) (alike profile a) (alike_flat profile a) remotes),
)
