-- ===== src/SceneMapping.antt =====
-- internal/scenemapping/scenemapping.go: the lookups of the scene's seasons and titles.
pub mod Normal
use sonarr.Common.{
  ℕ, ◌+◌, leb, ◌==◌, Bool, true, false, not, ◌&&◌, ◌||◌, List, [], ◌∷◌, Option, none, some, Text,
  text_eq, if◌then◌else◌,
}

pub record Mapping : Type 0 where
  pub tvdb_id : ℕ
  pub season_number : Option ℕ
  pub scene_season_number : Option ℕ
  pub parse_term : Text

season_applies : Option ℕ → ℕ → Bool
season_applies none season = true
season_applies (some n) season = n == season

unfoldable pub lookup_scene_season : List Mapping → ℕ → ℕ → ℕ
unfolding season_applies
lookup_scene_season [] tvdb_id season = season
lookup_scene_season (m ∷ ms) tvdb_id season =
    let rest = lookup_scene_season ms tvdb_id season in
    if not (m.tvdb_id == tvdb_id)
    then rest
    else if season_applies m.season_number season
    then elim m.scene_season_number [ none ↦ rest | some scene ↦ scene ]
    else rest

-- `'A' <= c && c <= 'Z'`.
unfoldable pub is_capital : ℕ → Bool
is_capital c = leb b'A' c && leb c b'Z'

unfoldable pub is_alphanumeric : ℕ → Bool
unfolding is_capital
is_alphanumeric c = is_capital c || (leb b'a' c && leb c b'z') || (leb b'0' c && leb c b'9')

unfoldable pub small : ℕ → ℕ
unfolding is_capital
small c = if is_capital c then c + 32 else c

-- The loop of normalize, with `lastSep`. The result is built from its front.
unfoldable pub normalize_loop : Bool → Text → Text
unfolding is_alphanumeric small
normalize_loop last_sep [] = []
normalize_loop last_sep (c ∷ s) =
    let after_letter = normalize_loop false s in
    let after_sep = normalize_loop true s in
    if is_alphanumeric c
    then small c ∷ after_letter
    else if not last_sep
    then 32 ∷ after_sep
    else after_sep

-- A space at the end is cut off.
unfoldable pub trim_last : Text → Text
trim_last [] = []
trim_last (c ∷ []) = if c == 32 then [] else c ∷ []
trim_last (c ∷ d ∷ s) = c ∷ trim_last (d ∷ s)

unfoldable pub normalize : Text → Text
unfolding normalize_loop trim_last
normalize s = trim_last (normalize_loop true s)

is_empty : Text → Bool
is_empty [] = true
is_empty (c ∷ s) = false

unfoldable pub lookup_tvdb_id_by_title : List Mapping → Text → Option ℕ
unfolding is_empty normalize
lookup_tvdb_id_by_title [] title = none
lookup_tvdb_id_by_title (m ∷ ms) title =
    let rest = lookup_tvdb_id_by_title ms title in
    if is_empty m.parse_term
    then rest
    else if text_eq (normalize m.parse_term) (normalize title)
    then some m.tvdb_id
    else rest
