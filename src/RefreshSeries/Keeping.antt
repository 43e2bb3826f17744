-- ===== src/RefreshSeries/Keeping.antt =====
-- What a refresh of a series' metadata leaves alone.
use sonarr.Common.{
  ℕ, ◌==◌, ==_iff, Text, Bool, true, false, List, [], ◌∷◌, Option, none, some, ◌≡◌, refl, sym, ◌∙◌,
  subst, ◌⊎◌, inl, inr, In, In-append, In-map, Bool-cases, if◌then◌else◌,
}
use sonarr.Library.{
  Series, Episode, Write, saved, saved_unreported, unsaved, update_episode, list_for_series,
}
use sonarr.Library.Listing.{list_for_series-In}
use sonarr.RefreshSeries.{
  EpisodeInfo, World, Answers, later_or, lookup_existing, written_episode, is_taken, insert_episode,
  create_episode, merge_episode, merge_episodes, with_episodes, set_title, after_update,
  with_metadata, with_found, with_body, handle,
}

-- The row is the same but for what the metadata gives.
pub record Same (a b : Episode) : Type 0 where
  pub id_same : a.id ≡ b.id
  pub series_same : a.series_id ≡ b.series_id
  pub season_same : a.season_number ≡ b.season_number
  pub number_same : a.episode_number ≡ b.episode_number
  pub monitored_same : a.monitored ≡ b.monitored
  pub file_same : a.episode_file_id ≡ b.episode_file_id

Same-self : (a : Episode) → Same a a
Same-self a = record {
  id_same = refl;
  series_same = refl;
  season_same = refl;
  number_same = refl;
  monitored_same = refl;
  file_same = refl;
}

-- Every row of before is still there.
abbrev pub IsKept : List Episode → List Episode → Type 0
IsKept before after = (r : Episode) → In r before → (r' : Episode) × In r' after × Same r r'

abbrev pub HasUniqueIds : List Episode → Type 0
HasUniqueIds eps = (a b : Episode) → In a eps → In b eps → a.id ≡ b.id → a ≡ b

module _ (before : List Episode) (unique : HasUniqueIds before) where
  update-IsKept :
      (old new : Episode) (eps : List Episode)
      → In old before
      → Same old new
      → IsKept before eps
      → IsKept before (update_episode new eps)
  unfolding update_episode
  update-IsKept old new eps m s k r n =
      let (r', i, t) = k r n in
      elim (Bool-cases (r'.id == new.id)) [
        | inl e ↦
            let same : old ≡ r =
              unique old r m n (s.id_same ∙ sym ((==_iff r'.id new.id).0 e) ∙ sym t.id_same) in
            (
              new,
              subst (λ x. In x (update_episode new eps)) (simp e refl)
                  (In-map (λ x. if x.id == new.id then new else x) r' eps i),
              subst (λ x. Same x new) same s,
            )
        | inr e ↦ (
          r',
          subst (λ x. In x (update_episode new eps)) (simp e refl)
              (In-map (λ x. if x.id == new.id then new else x) r' eps i),
          t,
        )
      ]

  written-IsKept :
      (w : Write) (old new : Episode) (eps : List Episode)
      → In old before
      → Same old new
      → IsKept before eps
      → IsKept before (written_episode w new eps)
  unfolding written_episode
  written-IsKept unsaved old new eps m s k = k
  written-IsKept saved old new eps m s k = update-IsKept old new eps m s k
  written-IsKept saved_unreported old new eps m s k = update-IsKept old new eps m s k

  insert-IsKept :
      (series_id : ℕ) (ep : EpisodeInfo) (w : World)
      → IsKept before w.episodes
      → IsKept before
          (if is_taken series_id ep w.episodes then w else insert_episode series_id ep w).episodes
  unfolding insert_episode
  insert-IsKept series_id ep w k = elim (Bool-cases (is_taken series_id ep w.episodes)) [
    | inl e ↦ simp e k
    | inr e ↦ simp e (λ r n. let (r', i, t) = k r n in (r', In-append r' w.episodes _ i, t))
  ]

  create-IsKept :
      (c : Write) (series_id : ℕ) (ep : EpisodeInfo) (w : World)
      → IsKept before w.episodes
      → IsKept before (create_episode c series_id ep w).episodes
  unfolding create_episode
  create-IsKept unsaved series_id ep w k = k
  create-IsKept saved series_id ep w k = insert-IsKept series_id ep w k
  create-IsKept saved_unreported series_id ep w k = insert-IsKept series_id ep w k

  merge-IsKept :
      (env : Answers) (series_id : ℕ) (ep : EpisodeInfo) (o : Option Episode) (w : World)
      → ((old : Episode) → o ≡ some old → In old before)
      → IsKept before w.episodes
      → IsKept before (merge_episode env series_id ep o w).episodes
  unfolding merge_episode
  merge-IsKept env series_id ep none w m k = create-IsKept _ series_id ep w k
  merge-IsKept env series_id ep (some old) w m k =
      written-IsKept (env.updates old.id) old _ w.episodes (m old refl)
        (record {
          id_same = refl;
          series_same = refl;
          season_same = refl;
          number_same = refl;
          monitored_same = refl;
          file_same = refl;
        })
        k

later_or-cases :
    (o : Option Episode) (b : Bool) (x e : Episode)
    → later_or o (if b then some x else none) ≡ some e
    → (o ≡ some e) ⊎ (e ≡ x)
unfolding later_or
later_or-cases (some y) b x e h = inl h
later_or-cases none true x e h = inr (cc)
later_or-cases none false x e h = absurd (cc)

lookup-In :
    (season number : ℕ) (es : List Episode) (e : Episode)
    → lookup_existing season number es ≡ some e
    → In e es
unfolding lookup_existing
lookup-In season number [] e h = absurd (cc)
lookup-In season number (x ∷ es) e h =
    elim (later_or-cases (lookup_existing season number es) _ x e h) [
      | inl k ↦ inr (lookup-In season number es e k)
      | inr k ↦ inl k
    ]

merge_episodes-IsKept :
    (before : List Episode) (env : Answers) (series_id : ℕ) (existing : List Episode)
    (eps : List EpisodeInfo) (w : World)
    → HasUniqueIds before
    → ((e : Episode) → In e existing → In e before)
    → IsKept before w.episodes
    → IsKept before (merge_episodes env series_id existing eps w).episodes
unfolding merge_episodes
merge_episodes-IsKept before env series_id existing [] w u m k = k
merge_episodes-IsKept before env series_id existing (ep ∷ eps) w u m k =
    merge_episodes-IsKept before env series_id existing eps _ u m (
      merge-IsKept before u env series_id ep
        (lookup_existing ep.season_number ep.episode_number existing) w
        (λ old e. m old (lookup-In ep.season_number ep.episode_number existing old e)) k)

module _ (env : Answers) where
  -- The rows of the world are kept.
  abbrev Keeps : World → World → Type 0
  Keeps w w' = IsKept w.episodes w'.episodes

  all-IsKept : (eps : List Episode) → IsKept eps eps
  all-IsKept eps r m = (r, m, Same-self r)

  with_episodes-IsKept :
      (series_id : ℕ) (o : Option (List EpisodeInfo)) (w : World)
      → HasUniqueIds w.episodes
      → Keeps w (with_episodes env series_id o w).1
  unfolding with_episodes
  with_episodes-IsKept series_id none w u = all-IsKept w.episodes
  with_episodes-IsKept series_id (some eps) w u = elim (Bool-cases env.listed) [
    | inr e ↦ simp e (all-IsKept w.episodes)
    | inl e ↦ simp e (
        merge_episodes-IsKept w.episodes env series_id (list_for_series series_id w.episodes) eps _
          u (λ x m. (list_for_series-In series_id x w.episodes m).0) (all-IsKept w.episodes))
  ]

  after_update-IsKept :
      (c : Write) (s : Series) (title : Text) (w : World)
      → HasUniqueIds w.episodes
      → Keeps w (after_update c env s title w).1
  unfolding after_update set_title
  after_update-IsKept unsaved s title w u = all-IsKept w.episodes
  after_update-IsKept saved_unreported s title w u = all-IsKept w.episodes
  after_update-IsKept saved s title w u =
      with_episodes-IsKept s.id env.episodes (set_title s title w) u

  with_metadata-IsKept :
      (s : Series) (o : Option Text) (w : World)
      → HasUniqueIds w.episodes
      → Keeps w (with_metadata env s o w).1
  unfolding with_metadata
  with_metadata-IsKept s none w u = all-IsKept w.episodes
  with_metadata-IsKept s (some title) w u = after_update-IsKept env.updates_series s title w u

  with_found-IsKept :
      (o : Option Series) (w : World) → HasUniqueIds w.episodes → Keeps w (with_found env o w).1
  unfolding with_found
  with_found-IsKept none w u = all-IsKept w.episodes
  with_found-IsKept (some s) w u = with_metadata-IsKept s env.title w u

  with_body-IsKept :
      (o : Option ℕ) (w : World) → HasUniqueIds w.episodes → Keeps w (with_body env o w).1
  unfolding with_body
  with_body-IsKept none w u = all-IsKept w.episodes
  with_body-IsKept (some id) w u = with_found-IsKept (env.get id) w u

  -- A refresh of a series, whichever of its calls fail, keeps every episode of the library with its id,
  -- series, numbers, monitored flag and file.
  pub handle-IsKept :
      (w : World) → HasUniqueIds w.episodes → IsKept w.episodes (handle env w).1.episodes
  unfolding handle
  handle-IsKept w u = with_body-IsKept env.body w u
