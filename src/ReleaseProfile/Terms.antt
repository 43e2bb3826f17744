-- ===== src/ReleaseProfile/Terms.antt =====
-- What a release profile asks of a title.
use sonarr.Common.{Text, Bool, true, false, List, [], ◌∷◌, Option, ◌≡◌, refl, ◌↔◌, arith, All}
use sonarr.ReleaseProfile.{Profile, term_matches, all_required, none_ignored, match}

module _ (compile : Text → Option (Text → Bool)) where
  all_required-All :
      (ts : List Text) (title : Text)
      → (all_required compile ts title ≡ true) ↔ All (λ t. term_matches compile t title ≡ true) ts
  unfolding all_required
  all_required-All [] title = ((λ _. tt), (λ _. refl))
  all_required-All (t ∷ ts) title = ground (arith, all_required-All ts title)

  none_ignored-All :
      (ts : List Text) (title : Text)
      → (none_ignored compile ts title ≡ true) ↔ All (λ t. term_matches compile t title ≡ false) ts
  unfolding none_ignored
  none_ignored-All [] title = ((λ _. tt), (λ _. refl))
  none_ignored-All (t ∷ ts) title = ground (arith, none_ignored-All ts title)

  -- A title satisfies a profile exactly when every required term matches it and no ignored one does.
  pub match_iff :
      (p : Profile) (title : Text)
      → (match compile p title ≡ true) ↔ (
          All (λ t. term_matches compile t title ≡ true) p.required
          × All (λ t. term_matches compile t title ≡ false) p.ignored)
  unfolding match
  match_iff p title =
      ground (arith, all_required-All p.required title, none_ignored-All p.ignored title)
