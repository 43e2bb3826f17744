-- ===== src/RssSync/Handler/Safety.antt =====
-- What a run grabs: releases that the engine accepts, for monitored episodes of the library.
use sonarr.Common.{
  ℕ, Text, Bool, true, List, [], ◌∷◌, ◌++◌, map, Option, some, none, ◌≡◌, ◌⊎◌, inl, inr, refl, sym,
  ap, ◌∙◌, subst, All, In, All-In, All-part, append-In, map-In, select-In, select,
}
use sonarr.Parser.Patterns.{Find}
use sonarr.Parser.Title.{parse_title}
use sonarr.Profiles.{QualityDefinition, QualityProfile}
use sonarr.CustomFormats.{CustomFormat}
use sonarr.DecisionEngine.Types.{accept, RemoteEpisode, Spec}
use sonarr.DecisionEngine.Engine.{evaluate, rank}
use sonarr.Providers.{Release, Indexer}
use sonarr.Library.{Episode}
use sonarr.Grab
use sonarr.Grab.{
  Entry, World, clients_not_listed, no_client, no_factory, bad_settings, not_added, grabbed, grab,
}
use sonarr.Grab.Outcomes.{IsOutcome, grab-IsOutcome, entry}
use sonarr.RssSync.{Candidate, Group, find_winner, collect_releases, quality_name_for_id}
use sonarr.RssSync.Handler.{
  Environment, remote_of, grab_best, grab_group, grab_groups, process_releases, profile_or_empty,
  with_data, with_releases, with_instances, handle,
}
use sonarr.RssSync.Handler.Groups.{IsSound, Holds, process_releases-IsSound}
use sonarr.RssSync.Handler.Winner.{winner-IsBest}

module _ (env : Grab.Environment) (release : Release) (series_id : ℕ) (episode_ids : List ℕ)
    (quality_name : Text) where
  -- An entry that a grab adds.
  abbrev Added : Entry → Type 0
  Added e =
      In e.episode_id episode_ids × (e.series_id ≡ series_id) × (e.source_title ≡ release.title)

  entries-Added :
      (w : World) (h : List Entry) (download_id : Text) (e : Entry)
      → h
        ≡ w.history
          ++ map
              (entry env release series_id episode_ids quality_name download_id)
              (select env.recorded episode_ids)
      → In e h
      → In e w.history ⊎ Added e
  entries-Added w h download_id e q m = elim (append-In e w.history _ (subst (In e) q m)) [
    | inl n ↦ inl n
    | inr n ↦
        let (ep, i, f) = map-In _ e (select env.recorded episode_ids) n in
        inr (
          subst (λ x. In x episode_ids) (sym (ap (λ y. y.episode_id) f))
              ((select-In env.recorded ep episode_ids i).0),
          ap (λ y. y.series_id) f,
          ap (λ y. y.source_title) f,
        )
  ]

  outcome-Added :
      (w : World) (r : Grab.Result) (w' : World) (e : Entry)
      → IsOutcome env release series_id episode_ids quality_name w w' r
      → In e w'.history
      → In e w.history ⊎ Added e
  outcome-Added w grabbed w' e (all, c, d, ea, ch, ad, s, hh, p) m =
      entries-Added w w'.history d e hh m
  outcome-Added w not_added w' e (all, c, ea, ch, ad, s, hh, p) m = inl (subst (In e) hh m)
  outcome-Added w no_client w' e (all, ea, n, q) m = inl (subst (λ x. In e x.history) q m)
  outcome-Added w clients_not_listed w' e (ea, q) m = inl (subst (λ x. In e x.history) q m)
  outcome-Added w no_factory w' e h m = inl (subst (λ x. In e x.history) h m)
  outcome-Added w bad_settings w' e h m = inl (subst (λ x. In e x.history) h m)

  grab-Added :
      (w : World) (e : Entry)
      → In e (grab env release series_id episode_ids quality_name w).0.history
      → In e w.history ⊎ Added e
  grab-Added w e m =
      outcome-Added w _ _ e (grab-IsOutcome env release series_id episode_ids quality_name w) m

module _ (compile : Text → Option (Text → Bool)) (find : Find) (specs : List Spec) {Float : Type 0}
    (env : Environment Float) where
  module _ (defs : List (QualityDefinition Float)) (formats : List CustomFormat)
      (profile : QualityProfile) where
    -- The entry is for a monitored episode of the library, and the engine accepts a release of its
    -- title for that episode.
    abbrev pub IsPermitted : Entry → Type 0
    IsPermitted e =
        (ep : Episode) × (rel : Release) × In ep env.episodes
        × (ep.id ≡ e.episode_id)
        × (ep.series_id ≡ e.series_id)
        × (ep.monitored ≡ true)
        × (rel.title ≡ e.source_title)
        × ((evaluate specs
              (remote_of compile find specs env defs formats profile rel
                (parse_title find rel.title) ep.series_id ep)
              profile).0
            ≡ accept)

    candidate-IsPermitted :
        (g : Group) (c : Candidate) (e : Entry)
        → IsSound compile find specs env defs formats profile g.key c
        → In e.episode_id (c.episode_id ∷ [])
          × (e.series_id ≡ g.key.series_id)
          × (e.source_title ≡ c.release.title)
        → IsPermitted e
    candidate-IsPermitted g c e (ep, m, i, k, mon, acc, q) (inl a, b, t) = (
      ep,
      c.release,
      m,
      i ∙ sym a,
      sym (b ∙ ap (λ x. x.series_id) k),
      mon,
      sym t,
      subst (λ r. (evaluate specs r profile).0 ≡ accept) q acc,
    )
    candidate-IsPermitted g c e s (inr a, b, t) = absurd a

    grab_best-IsSafe :
        (ranked : List RemoteEpisode) (g : Group) (w : World) (e : Entry)
        → Holds (IsSound compile find specs env defs formats profile) g
        → rank (map (λ c. c.remote) g.candidates) profile ≡ ranked
        → In e (grab_best compile find specs env defs formats profile ranked g w).history
        → In e w.history ⊎ IsPermitted e
    unfolding grab_best
    grab_best-IsSafe [] g w e h q m = inl m
    grab_best-IsSafe (best ∷ ranked) g w e h q m =
        let winner = find_winner best g.candidates in
        let (n, _) = winner-IsBest compile find specs env defs formats profile g h best ranked q in
        elim (grab-Added (env.grabs g.key) winner.release g.key.series_id (winner.episode_id ∷ [])
          (quality_name_for_id best.quality_id defs) w e m) [
            | inl i ↦ inl i
            | inr a ↦ inr (candidate-IsPermitted g winner e (All-In _ winner g.candidates h.1 n) a)
          ]

    grab_groups-IsSafe :
        (gs : List Group) (w : World) (e : Entry)
        → All (Holds (IsSound compile find specs env defs formats profile)) gs
        → In e (grab_groups compile find specs env defs formats profile gs w).history
        → In e w.history ⊎ IsPermitted e
    unfolding grab_groups grab_group
    grab_groups-IsSafe [] w e h m = inl m
    grab_groups-IsSafe (g ∷ gs) w e h m =
        elim (grab_groups-IsSafe gs (grab_group compile find specs env defs formats profile g w) e
          h.1 m) [ inl i ↦ grab_best-IsSafe _ g w e h.0 refl i | inr p ↦ inr p ]

  -- The map of groups is walked over its own entries.
  abbrev pub WalksEntries : Type 0
  WalksEntries = (gs : List Group) (g : Group) → In g (env.order gs) → In g gs

  -- The entry was there, or it is permitted under the data that the run read.
  abbrev pub IsExplained : World → Entry → Type 0
  IsExplained w e =
      In e w.history
      ⊎ ((defs : List (QualityDefinition Float)) × (formats : List CustomFormat) × (env.definitions
            ≡ some defs)
          × (env.formats ≡ some formats)
          × IsPermitted defs formats (profile_or_empty env.profile_1) e)

  with_data-IsSafe :
      (defs : Option (List (QualityDefinition Float))) (formats : Option (List CustomFormat))
      (releases : List Release) (w : World) (e : Entry)
      → WalksEntries
      → env.definitions ≡ defs
      → env.formats ≡ formats
      → In e (with_data compile find specs env defs formats releases w).0.history
      → IsExplained w e
  unfolding with_data
  with_data-IsSafe none formats releases w e o d f m = inl m
  with_data-IsSafe (some defs) none releases w e o d f m = inl m
  with_data-IsSafe (some defs) (some formats) releases w e o d f m =
      let profile = profile_or_empty env.profile_1 in
      let gs = process_releases compile find specs env defs formats profile releases [] in
      let sound =
        (process_releases-IsSound compile find specs env defs formats profile releases []
          (tt, tt)).0 in
      elim (grab_groups-IsSafe defs formats profile (env.order gs) w e
        (All-part _ gs (env.order gs) (o gs) sound) m) [
          | inl i ↦ inl i
          | inr p ↦ inr (defs, formats, d, f, p)
        ]

  with_releases-IsSafe :
      (releases : List Release) (w : World) (e : Entry)
      → WalksEntries
      → In e (with_releases compile find specs env releases w).0.history
      → IsExplained w e
  unfolding with_releases
  with_releases-IsSafe [] w e o m = inl m
  with_releases-IsSafe (rel ∷ releases) w e o m =
      with_data-IsSafe _ _ (rel ∷ releases) w e o refl refl m

  with_instances-IsSafe :
      (instances : Option (List Indexer)) (w : World) (e : Entry)
      → WalksEntries
      → In e (with_instances compile find specs env instances w).0.history
      → IsExplained w e
  unfolding with_instances
  with_instances-IsSafe none w e o m = inl m
  with_instances-IsSafe (some instances) w e o m =
      with_releases-IsSafe (collect_releases env.indexers instances) w e o m

  -- Every history entry that a run adds is for a monitored episode of the library and has the title
  -- of a release that the engine accepts for that episode.
  pub handle-IsSafe :
      (w : World) (e : Entry)
      → WalksEntries
      → In e (handle compile find specs env w).0.history
      → IsExplained w e
  unfolding handle
  handle-IsSafe w e o m = with_instances-IsSafe env.instances w e o m
