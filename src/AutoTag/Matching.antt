-- ===== src/AutoTag/Matching.antt =====
-- A rule is the conjunction of its required specifications and the disjunction of the others.
use sonarr.Common.{
  Text, Bool, true, false, not, List, [], ◌∷◌, Option, ◌≡◌, ◌≢◌, ◌↔◌, ◌⊎◌, refl, arith, All,
}
use sonarr.AutoTag.{Specification, Rule, SeriesAttr, match_spec, match_loop, matches_specs, matches}

module _ (compile : Text → Option (Text → Bool)) where
  -- A negated specification holds when it does not match.
  abbrev pub Holds : SeriesAttr → Specification → Type 0
  Holds a s = match_spec compile s a ≡ not s.negate

  -- Some optional specification holds.
  abbrev pub SomeOptional : SeriesAttr → List Specification → Type 0
  SomeOptional a [] = ⊥
  SomeOptional a (s ∷ ss) = ((s.required ≡ false) × Holds a s) ⊎ SomeOptional a ss

  abbrev pub AllRequired : List Specification → Type 0
  AllRequired = All (λ s. s.required ≡ true)

  abbrev pub RequiredHold : SeriesAttr → List Specification → Type 0
  RequiredHold a = All (λ s. s.required ≡ true → Holds a s)

  -- What the loop answers, from what it has found before.
  loop_iff :
      (a : SeriesAttr) (hit have : Bool) (ss : List Specification)
      → (hit ≡ true → have ≡ true)
      → (match_loop compile a hit have ss ≡ true) ↔ (
          RequiredHold a ss
          × (((have ≡ false) × AllRequired ss)
              ⊎ ((hit ≡ true) × (have ≡ true))
              ⊎ SomeOptional a ss))
  unfolding match_loop
  loop_iff a hit have [] i = ground arith
  loop_iff a hit have (s ∷ ss) i = ground (
    arith,
    loop_iff a hit have ss i,
    loop_iff a true true ss (λ h. refl),
    loop_iff a hit true ss (λ h. refl),
  )

  start_iff :
      (a : SeriesAttr) (ss : List Specification)
      → (match_loop compile a false false ss ≡ true)
        ↔ (RequiredHold a ss × (AllRequired ss ⊎ SomeOptional a ss))
  start_iff a ss = ground (arith, loop_iff a false false ss (λ h. h))

  matches_specs_iff :
      (a : SeriesAttr) (ss : List Specification)
      → (matches_specs compile a ss ≡ true)
        ↔ ((ss ≢ []) × RequiredHold a ss × (AllRequired ss ⊎ SomeOptional a ss))
  unfolding matches_specs
  matches_specs_iff a [] = ((λ h. cc), λ h. absurd (h.0 refl))
  matches_specs_iff a (s ∷ ss) =
      let go = start_iff a (s ∷ ss) in
      ((λ h. ((λ e. cc), (go.0 h).0, (go.0 h).1)), λ h. go.1 (h.1, h.2))

  pub matches_iff :
      (a : SeriesAttr) (rule : Rule)
      → (matches compile rule a ≡ true) ↔ (
          (rule.specifications ≢ [])
          × RequiredHold a rule.specifications
          × (AllRequired rule.specifications ⊎ SomeOptional a rule.specifications))
  unfolding matches
  matches_iff a rule = matches_specs_iff a rule.specifications
