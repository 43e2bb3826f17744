-- ===== src/RssSync/Handler/Winner.antt =====
-- The candidate of a group that is grabbed.
use sonarr.Common.{
  In-map, map-In, Text, Bool, List, [], ◌∷◌, map, Option, ◌≡◌, inl, inr, refl, sym, ap, ◌∙◌, subst,
  arith, In, All-In, ◌<ℤ◌, ◌<◌, eq_of_parts, text_eq_iff,
}
use sonarr.Common.Sort.{slice_stable-In, In-slice_stable}
use sonarr.Parser.Patterns.{Find}
use sonarr.Parser.Title.{parse_title}
use sonarr.Profiles.{QualityDefinition, QualityProfile}
use sonarr.CustomFormats.{CustomFormat}
use sonarr.DecisionEngine.Types.{RemoteEpisode, Spec}
use sonarr.DecisionEngine.Engine.{rank, quality_index}
use sonarr.DecisionEngine.Engine.Ranking.{Better, BestFirst, rank_correct}
use sonarr.RssSync.{resolve_quality_id, Candidate, Group, find_winner}
use sonarr.RssSync.Handler.{Environment, remote_of}
use sonarr.RssSync.Handler.Groups.{IsSound, Holds}

-- The search succeeds where a candidate was ranked best.
find_winner-In :
    (c : Candidate) (cs : List Candidate)
    → In c cs
    → In (find_winner c.remote cs) cs
      × ((find_winner c.remote cs).remote.release.title ≡ c.remote.release.title)
      × ((find_winner c.remote cs).remote.cf_score ≡ c.remote.cf_score)
unfolding find_winner
find_winner-In c [] m = absurd m
find_winner-In c (x ∷ cs) m = ground (
  arith,
  find_winner-In c cs,
  text_eq_iff x.remote.release.title c.remote.release.title,
  eq_of_parts x.remote.cf_score c.remote.cf_score,
)

rank-In :
    (r : RemoteEpisode) (remotes : List RemoteEpisode) (profile : QualityProfile)
    → In r (rank remotes profile)
    → In r remotes
unfolding rank
rank-In r remotes profile m = slice_stable-In _ r remotes m

In-rank :
    (r : RemoteEpisode) (remotes : List RemoteEpisode) (profile : QualityProfile)
    → In r remotes
    → In r (rank remotes profile)
unfolding rank
In-rank r remotes profile m = In-slice_stable _ r remotes m

-- No release is better than the first of a ranking.
first-IsBest :
    (r best : RemoteEpisode) (ranked remotes : List RemoteEpisode) (profile : QualityProfile)
    → rank remotes profile ≡ best ∷ ranked
    → In r remotes
    → ¬ Better profile r best
first-IsBest r best ranked remotes profile e m = go (subst (In r) e (In-rank r remotes profile m))
  where
    go : In r (best ∷ ranked) → ¬ Better profile r best
    go (inl q) b = ground arith
    go (inr n) b =
        All-In (λ x. ¬ Better profile x best) r ranked
          ((subst (BestFirst profile) e (rank_correct remotes profile).1).0) n b

same_index :
    (profile : QualityProfile) (a b : RemoteEpisode)
    → a.quality_id ≡ b.quality_id
    → quality_index a profile ≡ quality_index b profile
unfolding quality_index
same_index profile a b q = rw q refl

not_beaten :
    (profile : QualityProfile) (w c best : RemoteEpisode)
    → w.cf_score ≡ best.cf_score
    → w.quality_id ≡ best.quality_id
    → ¬ Better profile c best
    → ¬ (w.cf_score <ℤ c.cf_score)
      × ¬ ((c.cf_score ≡ w.cf_score) × (quality_index c profile < quality_index w profile))
not_beaten profile w c best s q n = let i = same_index profile w best q in ground arith

module _ (compile : Text → Option (Text → Bool)) (find : Find) (specs : List Spec) {Float : Type 0}
    (env : Environment Float) (defs : List (QualityDefinition Float)) (formats : List CustomFormat)
    (profile : QualityProfile) (g : Group)
    (sound : Holds (IsSound compile find specs env defs formats profile) g) where
  -- A candidate's quality is read from its title.
  quality_of_title :
      (c : Candidate)
      → In c g.candidates
      → c.remote.quality_id
        ≡ resolve_quality_id (parse_title find c.remote.release.title).quality defs
  unfolding remote_of
  quality_of_title c m =
      let (ep, _, _, _, _, _, e) =
        All-In (IsSound compile find specs env defs formats profile g.key) c g.candidates sound.1
          m in
      ap (λ r. r.quality_id) e
      ∙ ap (λ t. resolve_quality_id (parse_title find t).quality defs)
          (sym (ap (λ r. r.release.title) e))

  -- The winner of a group whose candidates were accepted is one of them, and no candidate has a
  -- higher score, or the same score and a better quality.
  pub winner-IsBest :
      (best : RemoteEpisode) (ranked : List RemoteEpisode)
      → rank (map (λ c. c.remote) g.candidates) profile ≡ best ∷ ranked
      → In (find_winner best g.candidates) g.candidates
        × ((c : Candidate)
            → In c g.candidates
            → ¬ ((find_winner best g.candidates).remote.cf_score <ℤ c.remote.cf_score)
              × ¬ (
                  (c.remote.cf_score ≡ (find_winner best g.candidates).remote.cf_score)
                  × (quality_index c.remote profile
                      < quality_index (find_winner best g.candidates).remote profile)))
  winner-IsBest best ranked e =
      let (b, m, q) =
        map-In (λ c. c.remote) best g.candidates
          (rank-In best _ profile (subst (In best) (sym e) (inl refl))) in
      let (n, t, s) =
        subst
          (λ r.
            In (find_winner r g.candidates) g.candidates
            × ((find_winner r g.candidates).remote.release.title ≡ r.release.title)
            × ((find_winner r g.candidates).remote.cf_score ≡ r.cf_score))
          (sym q) (find_winner-In b g.candidates m) in
      (
        n,
        λ c i.
            not_beaten profile (find_winner best g.candidates).remote c.remote best s
              (quality_of_title (find_winner best g.candidates) n
                ∙ ap (λ x. resolve_quality_id (parse_title find x).quality defs)
                    (t ∙ ap (λ r. r.release.title) q)
                ∙ sym (quality_of_title b m)
                ∙ sym (ap (λ r. r.quality_id) q))
              (first-IsBest c.remote best ranked _ profile e
                (In-map (λ x. x.remote) c g.candidates i)),
      )
