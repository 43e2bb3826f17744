-- ===== src/Parser/Title.antt =====
-- internal/parser/title.go: `ParseTitle` and the three formats that it tries in order. A format that
-- fails has already written to the result, which the next one continues.
pub mod Cleaning
pub mod Formats
use sonarr.Common.{
  ℕ, zero, suc, ◌+◌, ◌-◌, ◌*◌, ◌==◌, leb, ltb, Text, codes, trim_space, Bool, true, false, ◌&&◌,
  List, [], ◌∷◌, Option, none, some, if◌then◌else◌, map, length, pos, not,
}
use sonarr.Parser.Types.{
  ParsedEpisodeInfo, ParsedQuality, SeriesType, untyped, standard, daily, anime,
}
use sonarr.Parser.Patterns.{
  Find, group, atoi, atoi_or_zero, re_standard, re_daily, re_anime, re_fallback_title,
  re_release_group,
}
use sonarr.Parser.Quality.{parse_quality}

-- `strings.ReplaceAll` of a character by a space.
unfoldable pub spaced : ℕ → Text → Text
spaced sep = map (λ c. if c == sep then 32 else c)

-- `strings.Contains(s, "  ")`.
unfoldable pub has_double : Text → Bool
has_double [] = false
has_double (a ∷ []) = false
has_double (a ∷ b ∷ s) = let rest = has_double (b ∷ s) in if a == 32 && b == 32 then true else rest

-- `strings.ReplaceAll(s, "  ", " ")`, from the left and without overlaps.
unfoldable pub halve_doubles : Text → Text
halve_doubles [] = []
halve_doubles (a ∷ []) = a ∷ []
halve_doubles (a ∷ b ∷ s) = elim (a == 32 && b == 32) [
  | true ↦ 32 ∷ halve_doubles s
  | false ↦ a ∷ halve_doubles (b ∷ s)
]

-- The loop of `cleanTitle`, on fuel.
unfoldable pub collapse : ℕ → Text → Text
unfolding has_double halve_doubles
collapse zero s = s
collapse (suc fuel) s = elim (has_double s) [ true ↦ collapse fuel (halve_doubles s) | false ↦ s ]

-- Each round shortens the text, so its length is fuel enough.
unfoldable pub clean_title : Text → Text
unfolding spaced
clean_title s = let t = trim_space (spaced b'_' (spaced b'.' s)) in collapse (length t) t

-- `for e := first; e <= last; e++`, by the number of rounds.
unfoldable pub episodes_from : ℕ → ℕ → List ℕ
episodes_from first zero = []
episodes_from first (suc n) = first ∷ episodes_from (suc first) n

unfoldable pub episode_range : ℕ → ℕ → List ℕ
unfolding episodes_from
episode_range first last = episodes_from first (suc last - first)

-- The episodes of a match: one, or the range up to a second one above 0. The first group is two or
-- three digits, so it is a number; without it Go would panic where a second one is present.
unfoldable pub standard_episodes : Option ℕ → Option ℕ → List ℕ
unfolding episode_range
standard_episodes none second = []
standard_episodes (some first) none = first ∷ []
standard_episodes (some first) (some last) =
    if ltb 0 last then episode_range first last else first ∷ []

unfoldable pub is_empty : {A : Type 0} → List A → Bool
is_empty [] = true
is_empty (a ∷ rest) = false

standard_match : Option (List Text) → ParsedEpisodeInfo → ParsedEpisodeInfo × Bool
unfolding clean_title standard_episodes
standard_match none info = (info, false)
standard_match (some m) info =
    let episodes = standard_episodes (atoi (group 3 m)) (atoi (group 4 m)) in
    (
      record info {
        series_title = clean_title (group 1 m);
        season_number = atoi_or_zero (group 2 m);
        episode_numbers = episodes;
      },
      not (is_empty episodes),
    )

daily_match : Option (List Text) → ParsedEpisodeInfo → ParsedEpisodeInfo × Bool
unfolding clean_title
daily_match none info = (info, false)
daily_match (some m) info =
    let year = atoi_or_zero (group 2 m) in
    let month = atoi_or_zero (group 3 m) in
    let day = atoi_or_zero (group 4 m) in
    (
      record info {
        series_title = clean_title (group 1 m);
        year = year;
        air_date = some (record { year = year; month = month; day = day });
        season_number = year;
        episode_numbers = (month * 100 + day) ∷ [];
      },
      true,
    )

unfoldable pub to_list : Option ℕ → List ℕ
to_list none = []
to_list (some n) = n ∷ []

anime_match : Option (List Text) → ParsedEpisodeInfo → ParsedEpisodeInfo × Bool
unfolding clean_title to_list
anime_match none info = (info, false)
anime_match (some m) info =
    let absolute = to_list (atoi (group 3 m)) in
    (
      record info {
        series_title = clean_title (group 2 m);
        release_group = trim_space (group 1 m);
        absolute_episode_numbers = absolute;
      },
      not (is_empty absolute),
    )

module _ (find : Find) where
  release_group_of : Option (List Text) → Text
  release_group_of none = []
  release_group_of (some m) = group 1 m

  unfoldable pub parse_release_group : Text → Text
  unfolding release_group_of
  parse_release_group title = release_group_of (find re_release_group title)

  fallback_title : Option (List Text) → Text → Text
  unfolding clean_title
  fallback_title none title = clean_title title
  fallback_title (some m) title = clean_title (group 1 m)

  finish_fallback : Text → ParsedEpisodeInfo → ParsedEpisodeInfo
  unfolding fallback_title parse_release_group
  finish_fallback title info = record info {
    series_title = fallback_title (find re_fallback_title title) title;
    release_group = parse_release_group title;
  }

  after_anime : Text → ParsedEpisodeInfo × Bool → ParsedEpisodeInfo
  unfolding finish_fallback
  after_anime title (info, true) = record info { series_type = anime }
  after_anime title (info, false) = finish_fallback title info

  after_daily : Text → ParsedEpisodeInfo × Bool → ParsedEpisodeInfo
  unfolding after_anime anime_match parse_release_group
  after_daily title (info, true) = record info {
    series_type = daily;
    release_group = parse_release_group title;
  }
  after_daily title (info, false) = after_anime title (anime_match (find re_anime title) info)

  after_standard : Text → ParsedEpisodeInfo × Bool → ParsedEpisodeInfo
  unfolding after_daily daily_match parse_release_group
  after_standard title (info, true) = record info {
    series_type = standard;
    release_group = parse_release_group title;
  }
  after_standard title (info, false) = after_daily title (daily_match (find re_daily title) info)

  -- The result before any format has been tried.
  unfoldable pub fresh : Text → ParsedEpisodeInfo
  fresh title = record {
    series_title = [];
    series_type = untyped;
    season_number = 0;
    episode_numbers = [];
    absolute_episode_numbers = [];
    air_date = none;
    year = 0;
    release_group = [];
    quality = parse_quality find title;
    release_title = title;
    languages = [];
    indexer_flags = [];
    size = pos 0;
    release_type = [];
  }

  unfoldable pub parse_title : Text → ParsedEpisodeInfo
  unfolding after_standard standard_match fresh
  parse_title title = after_standard title (standard_match (find re_standard title) (fresh title))
