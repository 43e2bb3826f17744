-- ===== src/Parser/Quality.antt =====
-- internal/parser/quality.go: `ParseQuality`. The first pattern that matches decides, in the order of
-- the `switch`.
use sonarr.Common.{ℕ, ltb, Text, codes, List, [], ◌∷◌, Option, none, some, if◌then◌else◌}
use sonarr.Parser.Types.{
  QualitySource, source_unknown, television, web_dl, web_rip, bluray, dvd, remux, Resolution,
  resolution_unknown, p480, p576, p720, p1080, p2160, Modifier, unmodified, proper, repack, real,
  ParsedQuality,
}
use sonarr.Parser.Patterns.{Find, is_match, group, atoi}

-- A `switch` over patterns, with what holds if none matches.
first_match : {A : Type 0} → Find → Text → A → List (Text × A) → A
first_match find title otherwise [] = otherwise
first_match find title otherwise ((pattern, a) ∷ cases) =
    let rest = first_match find title otherwise cases in
    if is_match find pattern title then a else rest

resolutions : List (Text × Resolution)
resolutions =
    (codes "(?i)\\b(2160p|4k|uhd)\\b", p2160)
    ∷ (codes "(?i)\\b1080[pi]\\b", p1080)
    ∷ (codes "(?i)\\b720p\\b", p720)
    ∷ (codes "(?i)\\b576[pi]\\b", p576)
    ∷ (codes "(?i)\\b480[pi]\\b", p480)
    ∷ []

sources : List (Text × QualitySource)
sources =
    (codes "(?i)\\b(REMUX|BDREMUX)\\b", remux)
    ∷ (codes "(?i)\\b(WEB[-. ]?DL|WEBDL)\\b", web_dl)
    ∷ (codes "(?i)\\b(WEB[-. ]?Rip|WEBRip)\\b", web_rip)
    ∷ (codes "(?i)\\b(Blu[-. ]?Ray|BD[-. ]?Rip|BR[-. ]?Rip|BDREMUX)\\b", bluray)
    ∷ (codes "(?i)\\b(DVD[-. ]?Rip|DVD[-. ]?R|DVDSCR)\\b", dvd)
    ∷ (codes "(?i)\\b(HDTV|PDTV|DSR|DTHD)\\b", television)
    ∷ (codes "(?i)\\b(SDTV)\\b", television)
    ∷ []

modifiers : List (Text × Modifier)
modifiers =
    (codes "(?i)\\bPROPER\\b", proper)
    ∷ (codes "(?i)\\bREPACK\\b", repack)
    ∷ (codes "(?i)\\bREAL\\b", real)
    ∷ []

-- A version above 1 is the revision.
version_or_one : Option ℕ → ℕ
version_or_one none = 1
version_or_one (some v) = if ltb 1 v then v else 1

revision_of : Option (List Text) → ℕ
unfolding version_or_one
revision_of none = 1
revision_of (some m) = version_or_one (atoi (group 1 m))

unfoldable pub parse_quality : Find → Text → ParsedQuality
unfolding first_match resolutions sources modifiers revision_of
parse_quality find title = record {
  source = first_match find title source_unknown sources;
  resolution = first_match find title resolution_unknown resolutions;
  modifier = first_match find title unmodified modifiers;
  revision = revision_of (find (codes "(?i)v(\\d+)\\b") title);
}
