-- ===== src/SceneMapping/Normal.antt =====
-- A normal form of titles: lower-case words and numbers with single spaces between them.
use sonarr.Common.{
  ℕ, ◌==◌, ==_iff, Bool, true, false, List, [], ◌∷◌, ◌≡◌, ◌≢◌, ◌⊎◌, refl, ap, ◌∙◌, arith, Text,
  if◌then◌else◌, Bool-cases, inl, inr,
}
use sonarr.SceneMapping.{
  Mapping, is_capital, is_alphanumeric, small, normalize_loop, trim_last, normalize,
  lookup_tvdb_id_by_title,
}

-- A letter or digit that is not a capital.
abbrev IsPlain : ℕ → Type 0
IsPlain c = (is_alphanumeric c ≡ true) × (small c ≡ c)

-- Plain characters with single spaces, none at the front after a separator.
abbrev IsSpaced : Bool → Text → Type 0
IsSpaced last_sep [] = Unit
IsSpaced last_sep (c ∷ s) =
    (IsPlain c × IsSpaced false s) ⊎ ((c ≡ 32) × (last_sep ≡ false) × IsSpaced true s)

-- And none at the end.
abbrev IsNormal : Bool → Text → Type 0
IsNormal last_sep [] = Unit
IsNormal last_sep (c ∷ s) =
    (IsPlain c × IsNormal false s) ⊎ ((c ≡ 32) × (last_sep ≡ false) × (s ≢ []) × IsNormal true s)

small-IsPlain : (c : ℕ) → is_alphanumeric c ≡ true → IsPlain (small c)
unfolding is_alphanumeric small is_capital
small-IsPlain c h = ground arith

space_lem : is_alphanumeric 32 ≡ false
unfolding is_alphanumeric is_capital
space_lem = refl

plain_ne : (c : ℕ) → IsPlain c → (c == 32) ≡ false
unfolding is_alphanumeric is_capital
plain_ne c h = ground arith

loop-IsSpaced : (b : Bool) (s : Text) → IsSpaced b (normalize_loop b s)
unfolding normalize_loop
loop-IsSpaced b [] = tt
loop-IsSpaced true (c ∷ s) = elim (Bool-cases (is_alphanumeric c)) [
  | inl e ↦ simp e (inl (small-IsPlain c e, loop-IsSpaced false s))
  | inr e ↦ simp e (loop-IsSpaced true s)
]
loop-IsSpaced false (c ∷ s) = elim (Bool-cases (is_alphanumeric c)) [
  | inl e ↦ simp e (inl (small-IsPlain c e, loop-IsSpaced false s))
  | inr e ↦ simp e (inr (refl, refl, loop-IsSpaced true s))
]

-- What follows a separator does not vanish.
trim_last_ne : (c : ℕ) (s : Text) → IsSpaced true (c ∷ s) → trim_last (c ∷ s) ≢ []
unfolding trim_last
trim_last_ne c [] (inl (p, q)) e = cc (e, ap (λ b. if b then [] else c ∷ []) (plain_ne c p))
trim_last_ne c [] (inr (a, b, q)) e = cc
trim_last_ne c (d ∷ s) h e = cc

trim_last-IsNormal : (b : Bool) (s : Text) → IsSpaced b s → IsNormal b (trim_last s)
unfolding trim_last
trim_last-IsNormal b [] h = tt
trim_last-IsNormal b (c ∷ []) h = elim (Bool-cases (c == 32)) [
  | inl e ↦ simp e tt
  | inr e ↦ simp e (single h e)
]
  where
    single : IsSpaced b (c ∷ []) → (c == 32) ≡ false → IsNormal b (c ∷ [])
    single (inl (p, q)) e = inl (p, tt)
    single (inr (a, x, q)) e = absurd (cc (e, (==_iff c 32).1 a))
trim_last-IsNormal b (c ∷ d ∷ s) (inl (p, q)) = inl (p, trim_last-IsNormal false (d ∷ s) q)
trim_last-IsNormal b (c ∷ d ∷ s) (inr (a, x, q)) =
    inr (a, x, trim_last_ne d s q, trim_last-IsNormal true (d ∷ s) q)

normal-loop : (b : Bool) (s : Text) → IsNormal b s → normalize_loop b s ≡ s
unfolding normalize_loop
normal-loop b [] h = refl
normal-loop b (c ∷ s) (inl (p, q)) = simp p.0 (cc (p.1, normal-loop false s q))
normal-loop b (c ∷ s) (inr (a, x, n, q)) = simp (a, x) (ap (λ r. 32 ∷ r) (normal-loop true s q))

normal-trim_last : (b : Bool) (s : Text) → IsNormal b s → trim_last s ≡ s
unfolding trim_last
normal-trim_last b [] h = refl
normal-trim_last b (c ∷ []) (inl (p, q)) = simp (plain_ne c p) refl
normal-trim_last b (c ∷ []) (inr (a, x, n, q)) = absurd (n refl)
normal-trim_last b (c ∷ d ∷ s) (inl (p, q)) = ap (λ r. c ∷ r) (normal-trim_last false (d ∷ s) q)
normal-trim_last b (c ∷ d ∷ s) (inr (a, x, n, q)) =
    ap (λ r. c ∷ r) (normal-trim_last true (d ∷ s) q)

-- A normal form is its own normal form.
normalize_idem : (s : Text) → normalize (normalize s) ≡ normalize s
unfolding normalize
normalize_idem s =
    let h = trim_last-IsNormal true (normalize_loop true s) (loop-IsSpaced true s) in
    ap trim_last (normal-loop true _ h) ∙ normal-trim_last true _ h

-- A lookup by a title finds what a lookup by its normal form finds: neither case nor punctuation matters.
lookup-normalize :
    (ms : List Mapping) (title : Text)
    → lookup_tvdb_id_by_title ms (normalize title) ≡ lookup_tvdb_id_by_title ms title
unfolding lookup_tvdb_id_by_title
lookup-normalize [] title = refl
lookup-normalize (m ∷ ms) title = simp (lookup-normalize ms title, normalize_idem title) refl
