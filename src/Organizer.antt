-- ===== src/Organizer.antt =====
-- internal/organizer: the file names and season folders of the library.
pub mod Names
pub mod Numbers
use sonarr.Common.{
  ℕ, zero, suc, ◌+◌, ◌-◌, ◌*◌, ◌/◌, ◌%◌, ◌==◌, ltb, Text, codes, has_prefix, trim_space, Bool, true,
  false, not, List, [], ◌∷◌, ◌++◌, if◌then◌else◌, length, select,
}

-- EpisodeInfo; numbers are those of a parsed title.
pub record EpisodeInfo : Type 0 where
  pub series_title : Text
  pub season_number : ℕ
  pub episode_number : ℕ
  pub episode_title : Text
  pub quality_name : Text
  pub release_group : Text
  pub air_date : Text

unfoldable pub default_episode_format : Text
default_episode_format =
    codes "{Series Title} - S{season:00}E{episode:00} - {Episode Title} [{Quality Full}]"

-- `strings.ReplaceAll` for a text that is not empty; `skip` characters belong to a match before.
unfoldable pub replace_from : Text → Text → ℕ → Text → Text
replace_from old value skip [] = []
replace_from old value (suc skip) (c ∷ s) = replace_from old value skip s
replace_from old value zero (c ∷ s) = elim (has_prefix old (c ∷ s)) [
  | true ↦ value ++ replace_from old value (length old - 1) s
  | false ↦ c ∷ replace_from old value zero s
]

unfoldable pub replace_all : Text → Text → Text → Text
unfolding replace_from
replace_all old value s = replace_from old value zero s

-- The decimal digits of a number, by as many rounds as it is large.
unfoldable pub digits : ℕ → ℕ → Text
digits zero n = (48 + n) ∷ []
digits (suc fuel) n = elim (ltb n 10) [
  | true ↦ (48 + n) ∷ []
  | false ↦ digits fuel (n / 10) ++ (48 + n % 10) ∷ []
]

-- `fmt.Sprintf("%02d", n)`.
unfoldable pub two_digits : ℕ → Text
unfolding digits
two_digits n = if ltb n 10 then 48 ∷ (48 + n) ∷ [] else digits n n

-- `strings.ReplaceAll(name, c, "")`.
unfoldable pub without : ℕ → Text → Text
without c = select (λ d. not (d == c))

unfoldable pub without_all : List ℕ → Text → Text
unfolding without
without_all [] name = name
without_all (c ∷ cs) name = without_all cs (without c name)

unfoldable pub illegal : List ℕ
illegal = b'/' ∷ b'\\' ∷ b':' ∷ b'*' ∷ b'?' ∷ b'"' ∷ b'<' ∷ b'>' ∷ b'|' ∷ []

unfoldable pub clean_filename : Text → Text
unfolding without_all illegal
clean_filename name = trim_space (without_all illegal name)

unfoldable pub substitute : Text → EpisodeInfo → Text
unfolding replace_all two_digits
substitute format info =
    let s = replace_all (codes "{Series Title}") info.series_title format in
    let s = replace_all (codes "{season:00}") (two_digits info.season_number) s in
    let s = replace_all (codes "{episode:00}") (two_digits info.episode_number) s in
    let s = replace_all (codes "{Episode Title}") info.episode_title s in
    let s = replace_all (codes "{Quality Full}") info.quality_name s in
    let s = replace_all (codes "{Release Group}") info.release_group s in
    replace_all (codes "{Air-Date}") info.air_date s

unfoldable pub build_filename : Text → EpisodeInfo → Text
unfolding substitute clean_filename
build_filename format info = clean_filename (substitute format info)

unfoldable pub build_season_folder : ℕ → Text
unfolding two_digits
build_season_folder season = codes "Season " ++ two_digits season
