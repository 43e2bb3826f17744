-- ===== src/RemotePathMapping/Translation.antt =====
-- Where a translated path comes from.
use sonarr.Common.{
  ℕ, Text, to_lower, equal_fold, cut_prefix, cut_prefix-append, cut_prefix_self, text_eq_iff, Bool,
  true, false, List, [], ◌∷◌, ◌++◌, Option, none, some, ◌≡◌, ◌⊎◌, inl, inr, refl, sym, ap, ◌∙◌,
  arith, Bool-cases, All, if◌then◌else◌,
}
use mathlib.Core.List.{append-nil}
use sonarr.RemotePathMapping.{
  Mapping, is_sep, strip_trailing_sep, at_boundary, rewrite_path, first_of,
}
use sonarr.RemotePathMapping.Directories.{
  IsSep, is_sep_lem, IsSep-is_sep, IsDirectory, strip-IsDirectory, IsDirectory-strip,
}

-- The path is the remote one, with or without its separator, up to the case of the letters.
abbrev pub IsRemote : Text → Text → Text → Type 0
IsRemote remote dir path = (equal_fold remote path ≡ true) ⊎ (equal_fold dir path ≡ true)

-- How a mapping rewrites a path: the remote path as a whole, or else, of a path below it, the
-- directory that it begins with.
abbrev pub Rewrites : Mapping → Text → Text → Type 0
Rewrites m path result =
    (remote : Text) × (local : Text) × IsDirectory m.remote_path remote
    × IsDirectory m.local_path local
    × ((IsRemote m.remote_path remote path × (result ≡ m.local_path))
        ⊎ (¬ IsRemote m.remote_path remote path
            × ((c : ℕ) × (rest : Text) × IsSep c
                × (path ≡ remote ++ c ∷ rest)
                × (result ≡ local ++ c ∷ rest))))

at_boundary_lem :
    (lp : Text) (o : Option Text) (result : Text)
    → at_boundary lp o ≡ some result
    → ((o ≡ some [])
        ⊎ ((c : ℕ) × (rest : Text) × (o ≡ some (c ∷ rest)) × IsSep c × (result ≡ lp ++ c ∷ rest)))
unfolding at_boundary
at_boundary_lem lp none result h = cc
at_boundary_lem lp (some []) result h = inl refl
at_boundary_lem lp (some (c ∷ rest)) result h = elim (Bool-cases (is_sep c)) [
  | inl s ↦ inr (c, rest, refl, is_sep_lem c s, ground arith)
  | inr s ↦ ground arith
]

equal_fold_self : (s : Text) → equal_fold s s ≡ true
equal_fold_self s = (text_eq_iff (to_lower s) (to_lower s)).1 refl

-- A path that is not the remote one is rewritten below the directory.
below-Rewrites :
    (m : Mapping) (path result : Text)
    → ¬ IsRemote m.remote_path (strip_trailing_sep m.remote_path) path
    → at_boundary
        (strip_trailing_sep m.local_path)
        (cut_prefix (strip_trailing_sep m.remote_path) path)
      ≡ some result
    → Rewrites m path result
below-Rewrites m path result n h =
    let rp = strip_trailing_sep m.remote_path in
    let below = at_boundary_lem (strip_trailing_sep m.local_path) (cut_prefix rp path) result h in
    elim below [
      | inl e ↦
          let q : path ≡ rp = cut_prefix-append rp path [] e ∙ append-nil rp in
          absurd (n (inr (rw q (equal_fold_self rp))))
      | inr (c, rest, e, s, r) ↦ (
        rp,
        strip_trailing_sep m.local_path,
        strip-IsDirectory m.remote_path,
        strip-IsDirectory m.local_path,
        inr (n, (c, rest, s, cut_prefix-append rp path (c ∷ rest) e, r)),
      )
    ]

not-IsRemote :
    (remote dir path : Text)
    → equal_fold remote path ≡ false
    → equal_fold dir path ≡ false
    → ¬ IsRemote remote dir path
not-IsRemote remote dir path e f (inl a) = cc
not-IsRemote remote dir path e f (inr a) = cc

rewrite_path-Rewrites :
    (m : Mapping) (path result : Text) → rewrite_path m path ≡ some result → Rewrites m path result
unfolding rewrite_path
rewrite_path-Rewrites m path result h = elim (Bool-cases (equal_fold m.remote_path path)) [
  | inl e ↦ whole (inl e) (ground arith)
  | inr e ↦ elim (Bool-cases (equal_fold (strip_trailing_sep m.remote_path) path)) [
    | inl f ↦ whole (inr f) (ground arith)
    | inr f ↦ below-Rewrites m path result (not-IsRemote _ _ path e f) (ground arith)
  ]
]
  where
    whole :
        IsRemote m.remote_path (strip_trailing_sep m.remote_path) path
        → result ≡ m.local_path
        → Rewrites m path result
    whole w q = (
      strip_trailing_sep m.remote_path,
      strip_trailing_sep m.local_path,
      strip-IsDirectory m.remote_path,
      strip-IsDirectory m.local_path,
      inl (w, q),
    )

at_boundary-sep :
    (lp : Text) (c : ℕ) (rest : Text)
    → IsSep c
    → at_boundary lp (some (c ∷ rest)) ≡ some (lp ++ c ∷ rest)
unfolding at_boundary
at_boundary-sep lp c rest s = rw (IsSep-is_sep c s) refl

-- The other way: a path that a mapping rewrites in the sense above is not passed over.
rewrite_path-none :
    (m : Mapping) (path result : Text) → rewrite_path m path ≡ none → ¬ Rewrites m path result
unfolding rewrite_path
rewrite_path-none m path result h (remote, local, r, l, w) =
    let q = IsDirectory-strip m.remote_path remote r in
    elim w [
      | inl (i, e) ↦ elim i [
        | inl a ↦ ground arith
        | inr a ↦
            let b : equal_fold (strip_trailing_sep m.remote_path) path ≡ true =
              ap (λ d. equal_fold d path) (sym q) ∙ a in
            ground arith
      ]
      | inr (n, (c, rest, s, p, e)) ↦
          let g : at_boundary (strip_trailing_sep m.local_path)
                (cut_prefix (strip_trailing_sep m.remote_path) path)
              ≡ some (strip_trailing_sep m.local_path ++ c ∷ rest) =
            ap (at_boundary (strip_trailing_sep m.local_path)) (
              ap (cut_prefix (strip_trailing_sep m.remote_path)) (p ∙ ap (λ d. d ++ c ∷ rest) q)
              ∙ cut_prefix_self (strip_trailing_sep m.remote_path) (c ∷ rest))
            ∙ at_boundary-sep (strip_trailing_sep m.local_path) c rest s in
          ground arith
    ]

-- No mapping of the host can rewrite the path.
abbrev pub NoneRewrites : Text → Text → List Mapping → Type 0
NoneRewrites host path =
    All (λ m. equal_fold m.host host ≡ true → (result : Text) → ¬ Rewrites m path result)

-- The first mapping of the host that can rewrite the path does, or none can and the path is
-- unchanged.
abbrev pub IsTranslation : List Mapping → Text → Text → Text → Type 0
IsTranslation mappings host path result =
    ((result ≡ path) × NoneRewrites host path mappings)
    ⊎ ((before : List Mapping) × (m : Mapping) × (after : List Mapping) × (mappings
          ≡ before ++ m ∷ after)
        × NoneRewrites host path before
        × (equal_fold m.host host ≡ true)
        × Rewrites m path result)

skip :
    (m : Mapping) (mappings : List Mapping) (host path result : Text)
    → (equal_fold m.host host ≡ true → (r : Text) → ¬ Rewrites m path r)
    → IsTranslation mappings host path result
    → IsTranslation (m ∷ mappings) host path result
skip m mappings host path result n (inl (e, h)) = inl (e, (n, h))
skip m mappings host path result n (inr (before, x, after, q, h, e, r)) =
    inr (m ∷ before, x, after, ap (λ t. m ∷ t) q, (n, h), e, r)

step :
    (m : Mapping) (mappings : List Mapping) (host path rest : Text) (b : Bool) (o : Option Text)
    → equal_fold m.host host ≡ b
    → rewrite_path m path ≡ o
    → IsTranslation mappings host path rest
    → IsTranslation (m ∷ mappings) host path (if b then first_of o rest else rest)
unfolding first_of
step m mappings host path rest false o e f t = skip m mappings host path rest (λ g. cc (e, g)) t
step m mappings host path rest true none e f t =
    skip m mappings host path rest (λ g r. rewrite_path-none m path r f) t
step m mappings host path rest true (some p) e f t =
    inr ([], m, mappings, refl, tt, e, rewrite_path-Rewrites m path p f)
