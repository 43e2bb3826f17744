-- ===== src/CustomFormats/Matching.antt =====
-- A custom format is the conjunction of its specifications.
use sonarr.Common.{Text, Bool, true, not, List, [], ◌∷◌, Option, ◌≡◌, ◌↔◌, refl, arith, All}
use sonarr.Parser.Types.{ParsedEpisodeInfo}
use sonarr.CustomFormats.{Specification, CustomFormat, match_spec, match_all, match}

module _ (compile : Text → Option (Text → Bool)) where
  -- A negated specification holds when it does not match.
  abbrev pub Holds : ParsedEpisodeInfo → Specification → Type 0
  Holds info spec = match_spec compile info spec ≡ not spec.negate

  match_all-All :
      (info : ParsedEpisodeInfo) (specs : List Specification)
      → (match_all compile info specs ≡ true) ↔ All (Holds info) specs
  unfolding match_all
  match_all-All info [] = ((λ _. tt), (λ _. refl))
  match_all-All info (s ∷ specs) = ground (arith, match_all-All info specs)

  -- A release matches a format exactly when every plain specification matches and every negated
  -- one does not.
  match-Holds :
      (info : ParsedEpisodeInfo) (cf : CustomFormat)
      → (match compile info cf ≡ true) ↔ All (Holds info) cf.specifications
  unfolding match
  match-Holds info cf = match_all-All info cf.specifications
