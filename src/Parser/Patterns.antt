-- ===== src/Parser/Patterns.antt =====
-- The regular expressions of internal/parser and `strconv.Atoi` on what they capture. Go's `regexp`
-- is a parameter `find`: `FindStringSubmatch` of a pattern on a text, the groups with the whole
-- match first, or `none`.
use sonarr.Common.{
  ℕ, zero, suc, ◌+◌, ◌*◌, ◌-◌, ◌^◌, leb, ltb, Text, codes, Bool, true, false, ◌&&◌, List, [], ◌∷◌,
  ◌++◌, Option, none, some, if◌then◌else◌,
}

-- `FindStringSubmatch`.
abbrev pub Find : Type 0
Find = Text → Text → Option (List Text)

-- `MatchString`.
unfoldable pub is_match : Find → Text → Text → Bool
is_match find pattern title = elim (find pattern title) [ none ↦ false | some m ↦ true ]

-- The group with a number, empty where there is none.
unfoldable pub group : ℕ → List Text → Text
group n [] = []
group zero (g ∷ gs) = g
group (suc n) (g ∷ gs) = group n gs

-- The value of decimal digits behind those read, up to the largest `int`.
unfoldable pub read_digits : ℕ → Text → Option ℕ
read_digits n [] = if ltb n (2 ^ 63) then some n else none
read_digits n (c ∷ s) = elim (leb b'0' c && leb c b'9') [
  | true ↦ read_digits (n * 10 + (c - b'0')) s
  | false ↦ none
]

-- `strconv.Atoi` on a captured group. The groups hold digits only, so no sign is read.
unfoldable pub atoi : Text → Option ℕ
unfolding read_digits
atoi [] = none
atoi (c ∷ s) = read_digits 0 (c ∷ s)

-- `n, _ := strconv.Atoi(s)`.
unfoldable pub atoi_or_zero : Text → ℕ
unfolding atoi
atoi_or_zero s = elim (atoi s) [ none ↦ 0 | some n ↦ n ]

unfoldable pub re_standard : Text
re_standard =
    codes "(?i)^(?P<title>.+?)[\\.\\s_-]+S(?P<season>\\d{1,2})E(?P<episode>\\d{2,3})"
    ++ codes "(?:[-E]+(?P<episode2>\\d{2,3}))*"

unfoldable pub re_daily : Text
re_daily =
    codes "(?i)^(?P<title>.+?)[\\.\\s_-]+(?P<year>\\d{4})[\\.\\s_-](?P<month>\\d{2})[\\.\\s_-]"
    ++ codes "(?P<day>\\d{2})"

unfoldable pub re_anime : Text
re_anime =
    codes "(?i)^\\[(?P<group>[^\\]]+)\\]\\s*(?P<title>.+?)\\s*-\\s*(?P<episode>\\d{2,4})(?:v\\d+)?"

unfoldable pub re_fallback_title : Text
re_fallback_title =
    codes "(?i)^(?P<title>.+?)(?:[\\.\\s_-]+(?:S\\d|E\\d|\\d{4}[\\.\\s_-]\\d{2}|\\d{3,4}p|HDTV|WEB|"
    ++ codes "BluRay|DVD|x264|x265|H\\.?264|H\\.?265|AAC|AC3|DTS|PROPER|REPACK))"

unfoldable pub re_release_group : Text
re_release_group = codes "-([A-Za-z0-9]+)(?:\\[.*\\])?$"
