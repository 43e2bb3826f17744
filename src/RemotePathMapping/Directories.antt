-- ===== src/RemotePathMapping/Directories.antt =====
-- The directory of a path.
use sonarr.Common.{
  ℕ, Text, true, false, [], ◌∷◌, ◌++◌, ◌≡◌, ◌⊎◌, inl, inr, refl, sym, ap, ◌∙◌, arith, Bool-cases,
  ◌≢◌,
}
use sonarr.RemotePathMapping.{is_sep, strip_trailing_sep}

-- A slash or a backslash.
abbrev pub IsSep : ℕ → Type 0
IsSep c = (c ≡ b'/') ⊎ (c ≡ b'\\')

pub is_sep_lem : (c : ℕ) → is_sep c ≡ true → IsSep c
unfolding is_sep
is_sep_lem c h = ground arith

pub IsSep-is_sep : (c : ℕ) → IsSep c → is_sep c ≡ true
unfolding is_sep
IsSep-is_sep c h = ground arith

-- The directory of a path: the path without a separator at its end, if it has one there.
abbrev pub IsDirectory : Text → Text → Type 0
IsDirectory path dir =
    ((c : ℕ) × IsSep c × (path ≡ dir ++ c ∷ []))
    ⊎ ((dir ≡ path) × ((e : Text) (c : ℕ) → IsSep c → path ≢ e ++ c ∷ []))

one_more :
    (c d : ℕ) (p e : Text) (x : ℕ)
    → ((e : Text) (x : ℕ) → IsSep x → d ∷ p ≢ e ++ x ∷ [])
    → IsSep x
    → c ∷ d ∷ p ≢ e ++ x ∷ []
one_more c d p [] x n s q = cc
one_more c d p (y ∷ e) x n s q = n e x s cc

pub strip-IsDirectory : (p : Text) → IsDirectory p (strip_trailing_sep p)
unfolding strip_trailing_sep
strip-IsDirectory [] = inr (refl, none_ends)
  where
    none_ends : (e : Text) (c : ℕ) → IsSep c → [] ≢ e ++ c ∷ []
    none_ends [] c s q = cc
    none_ends (y ∷ e) c s q = cc
strip-IsDirectory (c ∷ []) = elim (Bool-cases (is_sep c)) [
  | inl s ↦ simp s (inl (c, is_sep_lem c s, refl))
  | inr s ↦ simp s (inr (refl, one s))
]
  where
    one : is_sep c ≡ false → (e : Text) (x : ℕ) → IsSep x → c ∷ [] ≢ e ++ x ∷ []
    one s [] x i q = cc (s, IsSep-is_sep x i, q)
    one s (y ∷ []) x i q = cc
    one s (y ∷ z ∷ e) x i q = cc
strip-IsDirectory (c ∷ d ∷ p) = elim (strip-IsDirectory (d ∷ p)) [
  | inl (x, s, q) ↦ inl (x, s, ap (λ t. c ∷ t) q)
  | inr (q, n) ↦ inr (ap (λ t. c ∷ t) q, λ e x s. one_more c d p e x n s)
]

strip_last : (d : Text) (c : ℕ) → IsSep c → strip_trailing_sep (d ++ c ∷ []) ≡ d
unfolding strip_trailing_sep
strip_last [] c s = rw (IsSep-is_sep c s) refl
strip_last (x ∷ []) c s = ap (λ t. x ∷ t) (strip_last [] c s)
strip_last (x ∷ y ∷ d) c s = ap (λ t. x ∷ t) (strip_last (y ∷ d) c s)

-- A path has one directory.
pub IsDirectory-strip : (p d : Text) → IsDirectory p d → d ≡ strip_trailing_sep p
IsDirectory-strip p d (inl (c, s, q)) = sym (rw q (strip_last d c s))
IsDirectory-strip p d (inr (q, n)) = elim (strip-IsDirectory p) [
  | inl (c, s, r) ↦ absurd (n (strip_trailing_sep p) c s r)
  | inr (r, m) ↦ q ∙ sym r
]
