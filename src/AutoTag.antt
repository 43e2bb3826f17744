-- ===== src/AutoTag.antt =====
-- internal/autotag/autotag.go. The regular expressions of Go's `regexp` are a parameter, as in
-- CustomFormats; a number that a text holds does not wrap around.
pub mod Matching
pub mod Tags
use sonarr.Common.{
  ℕ, ◌+◌, ◌-◌, ◌*◌, leb, ◌==◌, Bool, true, false, not, ◌&&◌, List, [], ◌∷◌, ◌++◌, Option, none,
  some, Text, codes, text_eq, to_lower, equal_fold, contains, trim_space, if◌then◌else◌, any,
  select,
}

pub record Specification : Type 0 where
  pub name : Text
  pub implementation : Text
  pub negate : Bool
  pub required : Bool
  pub value : Text

pub record Rule : Type 0 where
  pub id : ℕ
  pub name : Text
  pub remove_tags_automatically : Bool
  pub tags : List ℕ
  pub specifications : List Specification

pub record SeriesAttr : Type 0 where
  pub title : Text
  pub genres : List Text
  pub status : Text
  pub series_type : Text
  pub network : Text
  pub year : ℕ
  pub original_lang : Text
  pub root_folder_path : Text

-- The loop of parseInt: a character that is no digit makes it 0.
read_int : ℕ → Text → ℕ
read_int n [] = n
read_int n (c ∷ s) =
    let rest = read_int (n * 10 + (c - b'0')) s in if leb b'0' c && leb c b'9' then rest else 0

unfoldable pub parse_int : Text → ℕ
unfolding read_int
parse_int s = read_int 0 (trim_space s)

-- `strings.SplitN(s, "-", 2)`, `none` where there is no dash.
split_dash : Text → Option (Text × Text)
split_dash [] = none
split_dash (c ∷ s) =
    if c == b'-'
    then some ([], s)
    else elim (split_dash s) [ none ↦ none | some (lo, hi) ↦ some (c ∷ lo, hi) ]

year_in : ℕ → Text → Option (Text × Text) → Bool
unfolding parse_int
year_in year value none = year == parse_int value
year_in year value (some (lo, hi)) = leb (parse_int lo) year && leb year (parse_int hi)

-- The cases of matchSpec's switch.
pub data Implementation : Type 0 where
  genre status_ series_type_ network_ original_language year_ root_folder unknown : Implementation

unfoldable pub implementation_of : Text → Implementation
implementation_of t =
    if text_eq t (codes "GenreSpecification")
    then genre
    else if text_eq t (codes "SeriesStatusSpecification")
    then status_
    else if text_eq t (codes "SeriesTypeSpecification")
    then series_type_
    else if text_eq t (codes "NetworkSpecification")
    then network_
    else if text_eq t (codes "OriginalLanguageSpecification")
    then original_language
    else if text_eq t (codes "YearSpecification")
    then year_
    else if text_eq t (codes "RootFolderSpecification")
    then root_folder
    else unknown

module _ (compile : Text → Option (Text → Bool)) where
  network_matches : Option (Text → Bool) → Text → Text → Bool
  network_matches none network value = contains (to_lower network) (to_lower value)
  network_matches (some re) network value = re network

  match_implementation : Implementation → Text → SeriesAttr → Bool
  unfolding network_matches year_in split_dash
  match_implementation genre value a = any (λ g. equal_fold g value) a.genres
  match_implementation status_ value a = equal_fold a.status value
  match_implementation series_type_ value a = equal_fold a.series_type value
  match_implementation network_ value a =
      network_matches (compile (codes "(?i)" ++ value)) a.network value
  match_implementation original_language value a = equal_fold a.original_lang value
  match_implementation year_ value a = year_in a.year value (split_dash value)
  match_implementation root_folder value a = equal_fold a.root_folder_path value
  match_implementation unknown value a = false

  unfoldable pub match_spec : Specification → SeriesAttr → Bool
  unfolding match_implementation
  match_spec s a = match_implementation (implementation_of s.implementation) s.value a

  -- The loop of Matches, with `anyOptionalMatch` and `haveOptional`.
  match_loop : SeriesAttr → Bool → Bool → List Specification → Bool
  match_loop a any_optional have_optional [] = if not have_optional then true else any_optional
  match_loop a any_optional have_optional (s ∷ ss) =
      let matched = if s.negate then not (match_spec s a) else match_spec s a in
      let next = match_loop a any_optional have_optional ss in
      let hit = match_loop a true true ss in
      let miss = match_loop a any_optional true ss in
      if s.required then if not matched then false else next else if matched then hit else miss

  matches_specs : SeriesAttr → List Specification → Bool
  unfolding match_loop
  matches_specs a [] = false
  matches_specs a (s ∷ ss) = match_loop a false false (s ∷ ss)

  unfoldable pub matches : Rule → SeriesAttr → Bool
  unfolding matches_specs
  matches rule a = matches_specs a rule.specifications

-- The set of the tags that a list holds.
abbrev pub holds_tag : List ℕ → ℕ → Bool
holds_tag tags t = any (λ s. s == t) tags

-- The loop of ApplyTags: the tags seen and the result so far.
apply_loop : List ℕ → List ℕ → List ℕ → List ℕ
apply_loop seen out [] = out
apply_loop seen out (t ∷ ts) =
    let known = apply_loop seen out ts in
    let added = apply_loop (t ∷ seen) (out ++ t ∷ []) ts in
    if holds_tag seen t then known else added

unfoldable pub apply_tags : List ℕ → Rule → List ℕ
unfolding apply_loop
apply_tags existing rule = apply_loop existing existing rule.tags

unfoldable pub remove_tags : List ℕ → Rule → List ℕ
remove_tags existing rule = select (λ t. not (holds_tag rule.tags t)) existing
