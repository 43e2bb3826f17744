-- ===== src/CustomFormats.antt =====
-- internal/customformats: matching a release against custom formats, and its score. The regular
-- expressions of Go's `regexp` are a parameter, as in ReleaseProfile. A size in gigabytes is an
-- exact decimal, where the source computes in floats; a number of bytes that no `int64` holds becomes
-- the least one, as on amd64 (Go leaves the result to the machine).
pub mod Matching
pub mod Sizes
pub mod Scoring
use sonarr.Common.{
  ℕ, zero, suc, ◌+◌, ◌-◌, ◌*◌, ◌/◌, ◌^◌, ◌==◌, leb, ltb, ℤ, pos, negsuc, ◌+ℤ◌, leb_ℤ, eqb_ℤ, Bool,
  true, false, not, ◌&&◌, ◌||◌, List, [], ◌∷◌, Option, none, some, Text, codes, text_eq, to_lower,
  equal_fold, trim_space, if◌then◌else◌,
}
use sonarr.Parser.Types.{ParsedEpisodeInfo, source_text, resolution_text}
use sonarr.Profiles.{QualityProfile, FormatScoreItem}

pub record Specification : Type 0 where
  pub name : Text
  pub implementation : Text
  pub negate : Bool
  pub required : Bool
  pub value : Text

pub record CustomFormat : Type 0 where
  pub id : ℕ
  pub name : Text
  pub include_when_renaming : Bool
  pub specifications : List Specification

-- The cases of the `switch` in `matchSpec`.
pub data Implementation : Type 0 where
  release_title source resolution release_group language indexer_flag size : Implementation
  release_type unknown : Implementation

unfoldable pub implementation_of : Text → Implementation
implementation_of t =
    if text_eq t (codes "ReleaseTitleSpecification")
    then release_title
    else if text_eq t (codes "SourceSpecification")
    then source
    else if text_eq t (codes "ResolutionSpecification")
    then resolution
    else if text_eq t (codes "ReleaseGroupSpecification")
    then release_group
    else if text_eq t (codes "LanguageSpecification")
    then language
    else if text_eq t (codes "IndexerFlagSpecification")
    then indexer_flag
    else if text_eq t (codes "SizeSpecification")
    then size
    else if text_eq t (codes "ReleaseTypeSpecification")
    then release_type
    else unknown

-- `strings.SplitN(s, "-", 2)`, `none` where it has one part.
split_dash : Text → Option (Text × Text)
split_dash [] = none
split_dash (c ∷ s) =
    if c == b'-'
    then some ([], s)
    else elim (split_dash s) [ none ↦ none | some (lo, hi) ↦ some (c ∷ lo, hi) ]

is_digit : ℕ → Bool
is_digit c = leb b'0' c && leb c b'9'

-- The loop of `parseGB`: `n` are the digits read, `k` of them behind the dot. `none` is the early
-- `return 0`.
read_decimal : Bool → ℕ → ℕ → Text → Option (ℕ × ℕ)
unfolding is_digit
read_decimal before_dot n k [] = some (n, k)
read_decimal before_dot n k (c ∷ s) =
    let dot = read_decimal false n k s in
    let whole = read_decimal true (n * 10 + (c - b'0')) k s in
    let part = read_decimal false (n * 10 + (c - b'0')) (suc k) s in
    if c == b'.' && before_dot
    then dot
    else if is_digit c
    then if before_dot then whole else part
    else none

gigabytes : Option (ℕ × ℕ) → ℕ
gigabytes none = 0
gigabytes (some (n, k)) = n * 2 ^ 30 / 10 ^ k

negative : ℕ → ℤ
negative zero = pos 0
negative (suc n) = negsuc n

-- `int64(f * (1 << 30))`.
to_int64 : ℕ → ℤ
to_int64 n = if ltb n (2 ^ 63) then pos n else negsuc (2 ^ 63 - 1)

-- `* sign` with the sign -1, which maps the least `int64` to itself.
negated : ℤ → ℤ
unfolding negative
negated (pos n) = negative n
negated (negsuc n) = negsuc n

unsigned_gb : Text → ℕ
unfolding read_decimal gigabytes
unsigned_gb s = gigabytes (read_decimal true 0 0 s)

unfoldable pub parse_gb : Text → ℤ
unfolding unsigned_gb to_int64 negated
parse_gb [] = to_int64 (unsigned_gb [])
parse_gb (c ∷ s) =
    if c == b'-' then negated (to_int64 (unsigned_gb s)) else to_int64 (unsigned_gb (c ∷ s))

range_of : Option (Text × Text) → ℤ × ℤ
range_of none = (pos 0, pos 0)
range_of (some (lo, hi)) = (parse_gb (trim_space lo), parse_gb (trim_space hi))

unfoldable pub parse_size_range : Text → ℤ × ℤ
unfolding split_dash range_of
parse_size_range s = range_of (split_dash s)

some_equal_fold : List Text → Text → Bool
some_equal_fold [] value = false
some_equal_fold (l ∷ ls) value = if equal_fold l value then true else some_equal_fold ls value

size_in : ℤ → ℤ × ℤ → Bool
size_in s (lo, hi) =
    if eqb_ℤ s (pos 0) then false else leb_ℤ lo s && (eqb_ℤ hi (pos 0) || leb_ℤ s hi)

module _ (compile : Text → Option (Text → Bool)) where
  regex_matches : Text → Text → Bool
  regex_matches pattern text = elim (compile pattern) [ none ↦ false | some re ↦ re text ]

  match_implementation : Implementation → ParsedEpisodeInfo → Text → Bool
  unfolding regex_matches some_equal_fold size_in
  match_implementation release_title info value = regex_matches value info.release_title
  match_implementation source info value =
      text_eq (source_text info.quality.source) (to_lower value)
  match_implementation resolution info value =
      text_eq (resolution_text info.quality.resolution) (to_lower value)
  match_implementation release_group info value = regex_matches value info.release_group
  match_implementation language info value = some_equal_fold info.languages value
  match_implementation indexer_flag info value = some_equal_fold info.indexer_flags value
  match_implementation size info value = size_in info.size (parse_size_range value)
  match_implementation release_type info value = equal_fold info.release_type value
  match_implementation unknown info value = true

  unfoldable pub match_spec : ParsedEpisodeInfo → Specification → Bool
  unfolding match_implementation
  match_spec info spec =
      match_implementation (implementation_of spec.implementation) info spec.value

  -- The loop of `Match`.
  match_all : ParsedEpisodeInfo → List Specification → Bool
  match_all info [] = true
  match_all info (spec ∷ specs) =
      let matched = if spec.negate then not (match_spec info spec) else match_spec info spec in
      if not matched then false else match_all info specs

  unfoldable pub match : ParsedEpisodeInfo → CustomFormat → Bool
  unfolding match_all
  match info cf = match_all info cf.specifications

  -- `weights[fi.FormatID] = fi.Score`, over a map whose missing keys read 0.
  build_weights : (ℕ → ℤ) → List FormatScoreItem → ℕ → ℤ
  build_weights weights [] = weights
  build_weights weights (fi ∷ items) =
      build_weights (λ id. if id == fi.format_id then fi.score else weights id) items

  add_matches : (ℕ → ℤ) → ℤ → ParsedEpisodeInfo → List CustomFormat → ℤ
  add_matches weights total info [] = total
  add_matches weights total info (cf ∷ formats) =
      add_matches weights (if match info cf then total +ℤ weights cf.id else total) info formats

  unfoldable pub score : ParsedEpisodeInfo → List CustomFormat → QualityProfile → ℤ
  unfolding build_weights add_matches
  score info formats profile =
      add_matches (build_weights (λ _. pos 0) profile.format_items) (pos 0) info formats
