-- ===== src/Parser/Title/Formats.antt =====
-- What each format of a title gives: episodes of a range, a daily number, an absolute number.
use sonarr.Common.{
  trim_space, ℕ, zero, suc, ◌+◌, ◌-◌, ◌*◌, ◌≤◌, ◌<◌, Text, not, List, [], ◌∷◌, Option, none, some,
  ◌≡◌, ◌↔◌, inl, inr, ap, Bool-cases, ltb, refl, arith, In,
}
use sonarr.Parser.Types.{ParsedEpisodeInfo, untyped, standard, daily, anime}
use sonarr.Parser.Patterns.{Find, group, atoi, atoi_or_zero, re_standard, re_daily, re_anime}
use sonarr.Parser.Title.{
  episodes_from, standard_episodes, episode_range, is_empty, standard_match, daily_match, to_list,
  anime_match, after_standard, after_daily, after_anime, finish_fallback, clean_title, fresh,
  parse_title,
}

episodes_from-In : (e first n : ℕ) → In e (episodes_from first n) ↔ ((first ≤ e) × (e < first + n))
unfolding episodes_from
episodes_from-In e first zero = ground arith
episodes_from-In e first (suc n) = ground (arith, episodes_from-In e (suc first) n)

-- A standard result: a match of the standard pattern, its season, and its episode as one of the
-- result's episodes.
abbrev IsStandard : Find → Text → ParsedEpisodeInfo → Type 0
IsStandard find title info =
    (m : List Text) × (find re_standard title ≡ some m)
    × (info.series_title ≡ clean_title (group 1 m))
    × (info.season_number ≡ atoi_or_zero (group 2 m))
    × ((first : ℕ) × (atoi (group 3 m) ≡ some first) × In first info.episode_numbers)
    × (info.absolute_episode_numbers ≡ [])

-- A daily result: a match of the daily pattern, its date, its year as the season and its month and
-- day as the only episode.
abbrev IsDaily : Find → Text → ParsedEpisodeInfo → Type 0
IsDaily find title info =
    (m : List Text) × (find re_daily title ≡ some m)
    × (info.series_title ≡ clean_title (group 1 m))
    × (info.season_number ≡ atoi_or_zero (group 2 m))
    × (info.year ≡ atoi_or_zero (group 2 m))
    × (info.air_date
        ≡ some (record {
          year = atoi_or_zero (group 2 m);
          month = atoi_or_zero (group 3 m);
          day = atoi_or_zero (group 4 m);
        }))
    × (info.episode_numbers ≡ (atoi_or_zero (group 3 m) * 100 + atoi_or_zero (group 4 m)) ∷ [])
    × (info.absolute_episode_numbers ≡ [])

-- An anime result: a match of the anime pattern and its number as the only absolute one.
abbrev IsAnime : Find → Text → ParsedEpisodeInfo → Type 0
IsAnime find title info =
    (m : List Text) × (find re_anime title ≡ some m)
    × (info.series_title ≡ clean_title (group 2 m))
    × (info.episode_numbers ≡ [])
    × ((n : ℕ) × (atoi (group 3 m) ≡ some n) × (info.absolute_episode_numbers ≡ n ∷ []))

-- The result is what its series type says.
abbrev pub IsShaped : Find → Text → ParsedEpisodeInfo → Type 0
IsShaped find title info = elim info.series_type [
  | untyped ↦ (info.episode_numbers ≡ []) × (info.absolute_episode_numbers ≡ [])
  | standard ↦ IsStandard find title info
  | daily ↦ IsDaily find title info
  | anime ↦ IsAnime find title info
]

episodes_from-head : (first k n : ℕ) (ns : List ℕ) → episodes_from first k ≡ n ∷ ns → first ≡ n
unfolding episodes_from
episodes_from-head first zero n ns e = cc
episodes_from-head first (suc k) n ns e = cc

-- A list of episodes that is not empty begins with the first number that was read.
standard_episodes-In :
    (first last : Option ℕ) (n : ℕ) (ns : List ℕ)
    → standard_episodes first last ≡ n ∷ ns
    → first ≡ some n
unfolding standard_episodes episode_range
standard_episodes-In none last n ns e = cc
standard_episodes-In (some first) none n ns e = cc
standard_episodes-In (some first) (some last) n ns e = elim (Bool-cases (ltb 0 last)) [
  | inl b ↦ ap some (episodes_from-head first (suc last - first) n ns (simp b at e))
  | inr b ↦ ground arith
]

module _ (find : Find) where
  after_anime-IsShaped :
      (title : Text) (m : Option (List Text)) (info : ParsedEpisodeInfo)
      → find re_anime title ≡ m
      → info.series_type ≡ untyped
      → info.episode_numbers ≡ []
      → info.absolute_episode_numbers ≡ []
      → IsShaped find title (after_anime find title (anime_match m info))
  unfolding after_anime anime_match to_list is_empty finish_fallback
  after_anime-IsShaped title none info f t e a = ground arith
  after_anime-IsShaped title (some m) info f t e a = absolute (atoi (group 3 m)) refl
    where
      absolute :
          (o : Option ℕ)
          → atoi (group 3 m) ≡ o
          → IsShaped find title (
              after_anime find title (
                record info {
                  series_title = clean_title (group 2 m);
                  release_group = trim_space (group 1 m);
                  absolute_episode_numbers = to_list o;
                },
                not (is_empty (to_list o)),
              ))
      absolute none g = ground arith
      absolute (some n) g = (m, f, refl, e, (n, g, refl))

  after_daily-IsShaped :
      (title : Text) (m : Option (List Text)) (info : ParsedEpisodeInfo)
      → find re_daily title ≡ m
      → info.series_type ≡ untyped
      → info.episode_numbers ≡ []
      → info.absolute_episode_numbers ≡ []
      → IsShaped find title (after_daily find title (daily_match m info))
  unfolding after_daily daily_match
  after_daily-IsShaped title none info f t e a =
      after_anime-IsShaped title (find re_anime title) info refl t e a
  after_daily-IsShaped title (some m) info f t e a = (m, f, refl, refl, refl, refl, refl, a)

  after_standard-IsShaped :
      (title : Text) (m : Option (List Text)) (info : ParsedEpisodeInfo)
      → find re_standard title ≡ m
      → info.series_type ≡ untyped
      → info.episode_numbers ≡ []
      → info.absolute_episode_numbers ≡ []
      → IsShaped find title (after_standard find title (standard_match m info))
  unfolding after_standard standard_match is_empty
  after_standard-IsShaped title none info f t e a =
      after_daily-IsShaped title (find re_daily title) info refl t e a
  after_standard-IsShaped title (some m) info f t e a =
      shaped (standard_episodes (atoi (group 3 m)) (atoi (group 4 m))) refl
    where
      shaped :
          (episodes : List ℕ)
          → standard_episodes (atoi (group 3 m)) (atoi (group 4 m)) ≡ episodes
          → IsShaped find title (
              after_standard find title (
                record info {
                  series_title = clean_title (group 1 m);
                  season_number = atoi_or_zero (group 2 m);
                  episode_numbers = episodes;
                },
                not (is_empty episodes),
              ))
      shaped [] g = after_daily-IsShaped title (find re_daily title) _ refl t refl a
      shaped (n ∷ ns) g =
          (m, f, refl, refl, (n, standard_episodes-In _ (atoi (group 4 m)) n ns g, inl refl), a)

  -- A parsed title of the standard type comes from a match of the standard pattern: it has the
  -- matched title, cleaned, the matched season, the matched episode among its episodes, and no
  -- absolute number. A daily one comes from a match of the daily pattern: it has the matched date,
  -- its year as the season and its month times 100 plus its day as the only episode. An anime one
  -- comes from a match of the anime pattern: it has the matched number as its only absolute one and
  -- no episode. Any other has neither kind of number.
  pub parse_title-IsShaped : (title : Text) → IsShaped find title (parse_title find title)
  unfolding parse_title fresh
  parse_title-IsShaped title =
      after_standard-IsShaped title (find re_standard title) _ refl refl refl refl

  standard_episodes_range :
      (first last : ℕ)
      → 0 < last
      → first ≤ last
      → standard_episodes (some first) (some last) ≡ episodes_from first (suc (last - first))
  unfolding standard_episodes
  standard_episodes_range first last p q =
      let e : suc last - first ≡ suc (last - first) = omega arith in ground arith

  matched_range :
      (title : Text) (m : List Text) (info : ParsedEpisodeInfo) (first k : ℕ)
      → standard_episodes (atoi (group 3 m)) (atoi (group 4 m)) ≡ episodes_from first (suc k)
      → ((after_standard find title (standard_match (some m) info)).series_type ≡ standard)
        × ((after_standard find title (standard_match (some m) info)).episode_numbers
            ≡ episodes_from first (suc k))
  unfolding after_standard standard_match is_empty episodes_from
  matched_range title m info first k e = rw e (refl, refl)

  -- A title that the standard pattern matches with a first and a last episode, in this order, has
  -- exactly the episodes from the first to the last.
  pub parse_title-range :
      (title : Text) (m : List Text) (first last : ℕ)
      → find re_standard title ≡ some m
      → atoi (group 3 m) ≡ some first
      → atoi (group 4 m) ≡ some last
      → 0 < last
      → first ≤ last
      → ((parse_title find title).series_type ≡ standard)
        × ((e : ℕ) → In e (parse_title find title).episode_numbers ↔ ((first ≤ e) × (e ≤ last)))
  unfolding parse_title
  parse_title-range title m first last f g h p q =
      let (t, e) =
        matched_range title m (fresh find title) first (last - first)
          (rw (g, h) (standard_episodes_range first last p q)) in
      rw f (t, λ n. rw e (ground (arith, episodes_from-In n first (suc (last - first)))))
