-- ===== src/DelayProfile/Choice.antt =====
-- The delay profile of a series is the first one that applies.
use sonarr.Common.{
  ℕ, ◌==◌, true, List, [], ◌∷◌, ◌++◌, Option, none, some, ◌≡◌, ◌↔◌, ◌⊎◌, inl, inr, refl, arith, any,
  All, In, Bool-cases, subst, sym, ap,
}
use sonarr.DelayProfile.{Profile, applies, applicable_profile}

-- The profile has no tags, or shares one with the series.
abbrev pub Applies : List ℕ → Profile → Type 0
Applies series_tags p = (p.tags ≡ []) ⊎ ((t : ℕ) × In t p.tags × In t series_tags)

any_eq : (t : ℕ) (ts : List ℕ) → (any (λ s. s == t) ts ≡ true) ↔ In t ts
any_eq t [] = ground arith
any_eq t (x ∷ ts) = ground (arith, any_eq t ts)

any-shared :
    (series_tags tags : List ℕ)
    → any (λ t. any (λ s. s == t) series_tags) tags ≡ true
    → (t : ℕ) × In t tags × In t series_tags
any-shared series_tags [] h = cc
any-shared series_tags (x ∷ tags) h = elim (Bool-cases (any (λ s. s == x) series_tags)) [
  | inl e ↦ (x, inl refl, (any_eq x series_tags).0 e)
  | inr e ↦ let (t, m, n) = any-shared series_tags tags (ground arith) in (t, inr m, n)
]

shared-any :
    (series_tags tags : List ℕ) (t : ℕ)
    → In t tags
    → In t series_tags
    → any (λ t. any (λ s. s == t) series_tags) tags ≡ true
shared-any series_tags [] t m n = absurd m
shared-any series_tags (x ∷ tags) t m n =
    ground (arith, any_eq x series_tags, any_eq t series_tags, shared-any series_tags tags t)

applies_iff :
    (series_tags : List ℕ) (p : Profile) (tags : List ℕ)
    → p.tags ≡ tags
    → (applies series_tags tags ≡ true) ↔ Applies series_tags p
unfolding applies
applies_iff series_tags p [] e = ((λ h. inl e), (λ h. refl))
applies_iff series_tags p (x ∷ tags) e = (
  (λ h. let (t, m, n) = any-shared series_tags (x ∷ tags) h in inr (t, subst (In t) (sym e) m, n)),
  (λ h. elim h [
    | inl q ↦ cc (e, q)
    | inr (t, m, n) ↦ shared-any series_tags (x ∷ tags) t (subst (In t) e m) n
  ]),
)

-- What a choice promises.
abbrev pub IsFirst : List Profile → List ℕ → Option Profile → Type 0
IsFirst profiles series_tags none = All (λ q. ¬ Applies series_tags q) profiles
IsFirst profiles series_tags (some p) =
    (before : List Profile) × (after : List Profile) × (profiles ≡ before ++ p ∷ after)
    × All (λ q. ¬ Applies series_tags q) before
    × Applies series_tags p

prepend :
    (q : Profile) (profiles : List Profile) (series_tags : List ℕ) (o : Option Profile)
    → ¬ Applies series_tags q
    → IsFirst profiles series_tags o
    → IsFirst (q ∷ profiles) series_tags o
prepend q profiles series_tags none n h = (n, h)
prepend q profiles series_tags (some p) n (before, after, e, h, a) =
    (q ∷ before, after, ap (λ z. q ∷ z) e, (n, h), a)

-- A series has the first profile that has no tags or shares one with the series, and none where
-- there is no such profile.
pub applicable_profile-IsFirst :
    (profiles : List Profile) (series_tags : List ℕ)
    → IsFirst profiles series_tags (applicable_profile profiles series_tags)
unfolding applicable_profile
applicable_profile-IsFirst [] series_tags = tt
applicable_profile-IsFirst (q ∷ profiles) series_tags =
    elim (Bool-cases (applies series_tags q.tags)) [
      | inl e ↦ simp e ([], profiles, refl, tt, (applies_iff series_tags q q.tags refl).0 e)
      | inr e ↦ simp e (
          prepend q profiles series_tags _
            (λ a. cc (e, (applies_iff series_tags q q.tags refl).1 a))
            (applicable_profile-IsFirst profiles series_tags))
    ]
