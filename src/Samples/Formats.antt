-- ===== src/Samples/Formats.antt =====
-- Custom formats at concrete inputs.
use sonarr.Common.{
  ◌*◌, ◌-◌, ◌^◌, negsuc, pos, ◌≤ℤ◌, true, false, [], ◌∷◌, codes, ◌≡◌, ◌≢◌, ◌↔◌, ◌⊎◌, refl, arith,
  ◌+ℤ◌, text_eq, trim_space, lower,
}
use sonarr.Parser.Types.{source_text}
use sonarr.Profiles.{QualityProfile}
use sonarr.CustomFormats
use sonarr.CustomFormats.{
  Specification, CustomFormat, match_spec, score, parse_size_range, parse_gb, implementation_of,
}
use sonarr.CustomFormats.Scoring.{total, score-total}
use sonarr.CustomFormats.Sizes.{value_from, value, match_spec-size_range}
use sonarr.Samples.Releases.{info, profile, compile}

abbrev web_source : Specification
web_source = record {
  name = codes "WEB";
  implementation = codes "SourceSpecification";
  negate = false;
  required = false;
  value = codes "WebDL";
}

abbrev two_to_ten : Specification
two_to_ten = record web_source { implementation = codes "SizeSpecification"; value = codes "2-10" }

-- A range that lacks its dash.
abbrev ten : Specification
ten = record two_to_ten { value = codes "10" }

abbrev web : CustomFormat
web = record {
  id = 5;
  name = codes "web";
  include_when_renaming = false;
  specifications = web_source ∷ two_to_ten ∷ [];
}

abbrev not_web : CustomFormat
not_web = record web { id = 6; specifications = record web_source { negate = true } ∷ [] }

abbrev scoring : QualityProfile
scoring = record profile {
  format_items =
      record { format_id = 5; score = pos 20 } ∷ record { format_id = 6; score = pos 7 } ∷ [];
}

score_sample : score compile info (web ∷ not_web ∷ []) scoring ≡ pos 20
unfolding score ◌+ℤ◌ CustomFormats.match match_spec implementation_of text_eq source_text
    parse_size_range parse_gb trim_space lower
score_sample = refl

score-total_example :
    score compile info (web ∷ not_web ∷ []) scoring
    ≡ total compile info scoring (web ∷ not_web ∷ [])
score-total_example = score-total compile info (web ∷ not_web ∷ []) scoring

-- A number of bytes that no `int64` holds becomes the least one.
parse_gb_sample : parse_gb (codes "9999999999") ≡ negsuc (2 ^ 63 - 1)
unfolding parse_gb
parse_gb_sample = refl

match_spec-size_range_example : (match_spec compile info two_to_ten ≡ true) ↔ (
    (info.size ≢ pos 0)
    × (pos (value (codes "2") * 2 ^ 30) ≤ℤ info.size)
    × ((value (codes "10") ≡ 0) ⊎ (info.size ≤ℤ pos (value (codes "10") * 2 ^ 30))))
unfolding value_from
match_spec-size_range_example =
    match_spec-size_range compile info two_to_ten (codes "2") (codes "10") refl refl (omega arith)
      (omega arith) (omega arith) (omega arith)
