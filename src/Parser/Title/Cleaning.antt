-- ===== src/Parser/Title/Cleaning.antt =====
-- The loop of `cleanTitle` ends, and what it leaves.
use sonarr.Common.{
  ℕ, zero, suc, ◌≤◌, ◌<◌, Text, trim_space, Bool, true, false, [], ◌∷◌, ◌≡◌, ◌≢◌, refl, arith, All,
  length, if◌then◌else◌, Bool-cases, inl, inr,
}
use sonarr.Common.Trimming.{All-trim_space}
use sonarr.Parser.Title.{spaced, has_double, halve_doubles, collapse, clean_title}

-- A round never lengthens the text, and shortens one with a double space.
halve_doubles-length :
    (s : Text)
    → (length (halve_doubles s) ≤ length s)
      × (has_double s ≡ true → length (halve_doubles s) < length s)
unfolding halve_doubles has_double
halve_doubles-length [] = ground arith
halve_doubles-length (a ∷ []) = ground arith
halve_doubles-length (a ∷ b ∷ s) =
    ground (arith, halve_doubles-length s, halve_doubles-length (b ∷ s))

collapse-suc :
    (fuel : ℕ) (s : Text) (b : Bool)
    → has_double s ≡ b
    → collapse (suc fuel) s ≡ (if b then collapse fuel (halve_doubles s) else s)
unfolding collapse
collapse-suc fuel s true e = rw (e, collapse) refl
collapse-suc fuel s false e = rw (e, collapse) refl

collapse-has_double : (fuel : ℕ) (s : Text) → length s ≤ fuel → has_double (collapse fuel s) ≡ false
collapse-has_double zero [] h = unfold collapse has_double in refl
collapse-has_double zero (a ∷ s) h = absurd (omega arith)
collapse-has_double (suc fuel) s h = elim (Bool-cases (has_double s)) [
  | inl e ↦
      rw (collapse-suc fuel s true e)
        (collapse-has_double fuel (halve_doubles s) (omega (arith, (halve_doubles-length s).1 e)))
  | inr e ↦ rw (collapse-suc fuel s false e) e
]

-- More fuel than the text is long changes nothing.
collapse_enough :
    (fuel more : ℕ) (s : Text) → length s ≤ fuel → fuel ≤ more → collapse more s ≡ collapse fuel s
collapse_enough zero zero s h k = refl
collapse_enough zero (suc more) [] h k = unfold collapse has_double in refl
collapse_enough zero (suc more) (a ∷ s) h k = absurd (omega arith)
collapse_enough (suc fuel) zero s h k = absurd (omega arith)
collapse_enough (suc fuel) (suc more) s h k = elim (Bool-cases (has_double s)) [
  | inl e ↦
      rw (collapse-suc fuel s true e, collapse-suc more s true e)
        (collapse_enough fuel more (halve_doubles s) (omega (arith, (halve_doubles-length s).1 e))
          (omega arith))
  | inr e ↦ rw (collapse-suc fuel s false e, collapse-suc more s false e) refl
]

-- Nothing but spaces is added to a text.
module _ (c : ℕ) (h : c ≢ 32) where
  abbrev Lacks : Text → Type 0
  Lacks = All (λ d. d ≢ c)

  halve_doubles-Lacks : (s : Text) → Lacks s → Lacks (halve_doubles s)
  unfolding halve_doubles
  halve_doubles-Lacks [] l = tt
  halve_doubles-Lacks (a ∷ []) l = l
  halve_doubles-Lacks (a ∷ b ∷ s) l =
      ground (arith, halve_doubles-Lacks s, halve_doubles-Lacks (b ∷ s))

  collapse-Lacks : (fuel : ℕ) (s : Text) → Lacks s → Lacks (collapse fuel s)
  unfolding collapse
  collapse-Lacks zero s l = l
  collapse-Lacks (suc fuel) s l =
      ground (arith, collapse-Lacks fuel (halve_doubles s), halve_doubles-Lacks s)

  spaced-Lacks : (s : Text) → Lacks (spaced c s)
  unfolding spaced
  spaced-Lacks [] = tt
  spaced-Lacks (a ∷ s) = ground (arith, spaced-Lacks s)

  spaced-Lacks_other : (sep : ℕ) (s : Text) → Lacks s → Lacks (spaced sep s)
  unfolding spaced
  spaced-Lacks_other sep [] l = tt
  spaced-Lacks_other sep (a ∷ s) l = ground (arith, spaced-Lacks_other sep s)

-- The loop ends by its test within as many rounds as the text is long, and a clean title has no dot,
-- no underscore and no two spaces side by side.
pub clean_title-IsClean :
    (s : Text)
    → (has_double (clean_title s) ≡ false)
      × All (λ c. c ≢ b'.') (clean_title s)
      × All (λ c. c ≢ b'_') (clean_title s)
      × ((more : ℕ)
          → length (trim_space (spaced b'_' (spaced b'.' s))) ≤ more
          → collapse more (trim_space (spaced b'_' (spaced b'.' s))) ≡ clean_title s)
unfolding clean_title
clean_title-IsClean s =
    let t = spaced b'_' (spaced b'.' s) in
    (
      collapse-has_double _ (trim_space t) (omega arith),
      collapse-Lacks b'.' (omega arith) _ (trim_space t) (
          All-trim_space (λ c. c ≢ b'.') t
            (spaced-Lacks_other b'.' (omega arith) b'_' (spaced b'.' s)
              (spaced-Lacks b'.' (omega arith) s))),
      collapse-Lacks b'_' (omega arith) _ (trim_space t)
          (All-trim_space (λ c. c ≢ b'_') t (spaced-Lacks b'_' (omega arith) (spaced b'.' s))),
      (λ more h. collapse_enough _ more (trim_space t) (omega arith) h),
    )
