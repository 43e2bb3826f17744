-- ===== src/Grab/Outcomes.antt =====
-- What a grab leaves behind on each of its branches.
use mathlib.Core.List.{append-nil, append_assoc}
use sonarr.Common.{
  ℕ, Text, Bool, true, false, List, [], ◌∷◌, ◌++◌, map, Option, none, some, ◌≡◌, inl, inr, refl,
  sym, ◌∙◌, In, select, Bool-cases, ap,
}
use sonarr.Providers.{Release, DownloadClient}
use sonarr.Grab.{
  Entry, Environment, World, Result, clients_not_listed, no_client, not_added, grabbed,
  record_history, after_add, send, overlay, instantiate, with_best, with_clients, grab,
}
use sonarr.Grab.Choice.{Suits, IsChoice, choose-IsChoice}

module _ (env : Environment) (release : Release) (series_id : ℕ) (episode_ids : List ℕ)
    (quality_name : Text) where
  abbrev pub entry : Text → ℕ → Entry
  entry download_id ep = record {
    episode_id = ep;
    series_id = series_id;
    source_title = release.title;
    quality_name = quality_name;
    download_id = download_id;
  }

  record_history_lem :
      (eps : List ℕ) (download_id : Text) (history : List Entry)
      → record_history env.recorded release series_id eps quality_name download_id history
        ≡ history ++ map (entry download_id) (select env.recorded eps)
  unfolding record_history
  record_history_lem [] download_id history = sym (append-nil history)
  record_history_lem (ep ∷ eps) download_id history = elim (Bool-cases (env.recorded ep)) [
    | inl e ↦
        rw e (
          record_history_lem eps download_id _ ∙ append_assoc history (entry download_id ep ∷ []) _)
    | inr e ↦ rw e (record_history_lem eps download_id history)
  ]

  -- One release was handed to the client.
  abbrev pub Sent : DownloadClient → World → World → Type 0
  Sent c w w' = w'.sent ≡ w.sent ++ (c, release.download_url, release.title) ∷ []

  abbrev pub IsOutcome : World → World → Result → Type 0
  IsOutcome w w' grabbed =
      (all : List DownloadClient) × (c : DownloadClient) × (download_id : Text) × (env.clients
        ≡ some all)
      × IsChoice env release.protocol all (some c)
      × (env.add c release.download_url release.title ≡ some download_id)
      × Sent c w w'
      × (w'.history ≡ w.history ++ map (entry download_id) (select env.recorded episode_ids))
      × (w'.published
          ≡ w.published
            ++ record {
              series_id = series_id;
              episode_ids = episode_ids;
              title = release.title;
              download_id = download_id;
            }
              ∷ [])
  IsOutcome w w' not_added =
      (all : List DownloadClient) × (c : DownloadClient) × (env.clients ≡ some all)
      × IsChoice env release.protocol all (some c)
      × (env.add c release.download_url release.title ≡ none)
      × Sent c w w'
      × (w'.history ≡ w.history)
      × (w'.published ≡ w.published)
  IsOutcome w w' no_client =
      (all : List DownloadClient) × (env.clients ≡ some all)
      × ((d : DownloadClient) → In d all → ¬ Suits env release.protocol d)
      × (w' ≡ w)
  IsOutcome w w' clients_not_listed = (env.clients ≡ none) × (w' ≡ w)
  IsOutcome w w' _ = w' ≡ w

  after_add-IsOutcome :
      (all : List DownloadClient) (c : DownloadClient) (o : Option Text) (w v : World)
      → env.clients ≡ some all
      → IsChoice env release.protocol all (some c)
      → env.add c release.download_url release.title ≡ o
      → Sent c w v
      → v.history ≡ w.history
      → v.published ≡ w.published
      → IsOutcome w
          (after_add env release series_id episode_ids quality_name o v).0
          (after_add env release series_id episode_ids quality_name o v).1
  unfolding after_add
  after_add-IsOutcome all c none w v ea ch e s h p = (all, c, ea, ch, e, s, h, p)
  after_add-IsOutcome all c (some d) w v ea ch e s h p = (
    all,
    c,
    d,
    ea,
    ch,
    e,
    s,
    record_history_lem episode_ids d v.history
        ∙ ap (λ x. x ++ map (entry d) (select env.recorded episode_ids)) h,
    rw p refl,
  )

  send-IsOutcome :
      (all : List DownloadClient) (c : DownloadClient) (w : World)
      → env.clients ≡ some all
      → IsChoice env release.protocol all (some c)
      → IsOutcome w
          (send env release series_id episode_ids quality_name c w).0
          (send env release series_id episode_ids quality_name c w).1
  unfolding send
  send-IsOutcome all c w ea ch = after_add-IsOutcome all c _ w _ ea ch refl refl refl refl

  overlay-IsOutcome :
      (b : Bool) (all : List DownloadClient) (c : DownloadClient) (w : World)
      → env.clients ≡ some all
      → IsChoice env release.protocol all (some c)
      → IsOutcome w
          (overlay env release series_id episode_ids quality_name b c w).0
          (overlay env release series_id episode_ids quality_name b c w).1
  unfolding overlay
  overlay-IsOutcome false all c w ea ch = refl
  overlay-IsOutcome true all c w ea ch = send-IsOutcome all c w ea ch

  instantiate-IsOutcome :
      (o : Option Text) (all : List DownloadClient) (c : DownloadClient) (w : World)
      → env.clients ≡ some all
      → IsChoice env release.protocol all (some c)
      → IsOutcome w
          (instantiate env release series_id episode_ids quality_name o c w).0
          (instantiate env release series_id episode_ids quality_name o c w).1
  unfolding instantiate
  instantiate-IsOutcome none all c w ea ch = refl
  instantiate-IsOutcome (some p) all c w ea ch = overlay-IsOutcome _ all c w ea ch

  with_best-IsOutcome :
      (o : Option DownloadClient) (all : List DownloadClient) (w : World)
      → env.clients ≡ some all
      → IsChoice env release.protocol all o
      → IsOutcome w
          (with_best env release series_id episode_ids quality_name o w).0
          (with_best env release series_id episode_ids quality_name o w).1
  unfolding with_best
  with_best-IsOutcome none all w ea ch = (all, ea, ch, refl)
  with_best-IsOutcome (some c) all w ea ch = instantiate-IsOutcome _ all c w ea ch

  with_clients-IsOutcome :
      (o : Option (List DownloadClient)) (w : World)
      → env.clients ≡ o
      → IsOutcome w
          (with_clients env release series_id episode_ids quality_name o w).0
          (with_clients env release series_id episode_ids quality_name o w).1
  unfolding with_clients
  with_clients-IsOutcome none w e = (e, refl)
  with_clients-IsOutcome (some all) w e =
      with_best-IsOutcome _ all w e (choose-IsChoice env release.protocol all)

  -- A grab that succeeds has handed the release to the best suitable client and added an event and
  -- the history entries whose inserts succeed; a client that refuses the release leaves the history
  -- and the events, and every other failure changes nothing.
  pub grab-IsOutcome :
      (w : World)
      → IsOutcome w
          (grab env release series_id episode_ids quality_name w).0
          (grab env release series_id episode_ids quality_name w).1
  unfolding grab
  grab-IsOutcome w = with_clients-IsOutcome env.clients w refl
