-- ===== src/Importer/Moving.antt =====
-- A move is all or nothing for what stands at the destination.
use sonarr.Common.{
  Text, codes, text_eq_iff, Bool, true, false, Option, none, some, ◌≡◌, ◌≢◌, inl, inr, refl, ap,
  arith, if◌then◌else◌, length, length-append, Bool-cases, ◌∙◌,
}
use sonarr.Importer.{
  Files, put_file, Moves, partial, discard, rename, copy_content, copy_file, link_or_copy,
  move_file,
}

partial-ne : (dst : Text) → dst ≢ partial dst
partial-ne dst e = omega (arith, length-append dst (codes ".partial"), ap length e)

put_file_self : (p : Text) (c : Option Text) (files : Files) → put_file p c files p ≡ c
unfolding put_file
put_file_self p c files = ground (arith, text_eq_iff p p)

put_file_other :
    (p q : Text) (c : Option Text) (files : Files) → q ≢ p → put_file p c files q ≡ files q
unfolding put_file
put_file_other p q c files h = ground (arith, text_eq_iff q p)

module _ (dst : Text) (content : Text) (before : Files) where
  -- Success puts the content at the destination and failure leaves it; no other path but the
  -- partial copy changes.
  abbrev pub IsMoved : Files × Bool → Type 0
  IsMoved (after, ok) =
      (after dst ≡ (if ok then some content else before dst))
      × ((p : Text) → p ≢ dst → p ≢ partial dst → after p ≡ before p)

  -- Only the partial copy has been touched.
  abbrev Untouched : Files → Type 0
  Untouched files = (p : Text) → p ≢ partial dst → files p ≡ before p

  put-Untouched :
      (c : Option Text) (files : Files)
      → Untouched files
      → Untouched (put_file (partial dst) c files)
  put-Untouched c files u p h = put_file_other (partial dst) p c files h ∙ u p h

  failed-IsMoved : (files : Files) → Untouched files → IsMoved (files, false)
  failed-IsMoved files u = (u dst (partial-ne dst), λ p _ h. u p h)

  discard-IsMoved : (m : Moves) (files : Files) → Untouched files → IsMoved (discard m dst files)
  unfolding discard
  discard-IsMoved m files u = removed m.removed
    where
      removed : (b : Bool) → IsMoved (if b then put_file (partial dst) none files else files, false)
      removed true = failed-IsMoved _ (put-Untouched none files u)
      removed false = failed-IsMoved files u

  placed-IsMoved :
      (files : Files) → Untouched files → IsMoved (put_file dst (some content) files, true)
  placed-IsMoved files u = (
    put_file_self dst (some content) files,
    λ p h k. put_file_other dst p (some content) files h ∙ u p k,
  )

  rename-IsMoved :
      (m : Moves) (files : Files) → Untouched files → IsMoved (rename m dst content files)
  unfolding rename
  rename-IsMoved m files u = elim (Bool-cases m.renamed) [
    | inl e ↦ simp e (placed-IsMoved _ (put-Untouched none files u))
    | inr e ↦ simp e (failed-IsMoved files u)
  ]

  copy_content-IsMoved : (m : Moves) → IsMoved (copy_content m dst content before)
  unfolding copy_content
  copy_content-IsMoved m = elim (Bool-cases m.copied) [
    | inl e ↦ elim (Bool-cases m.closed) [
      | inl f ↦ simp (e, f) (rename-IsMoved m _ (put-Untouched (some content) before (λ p _. refl)))
      | inr f ↦
          simp (e, f) (discard-IsMoved m _ (put-Untouched (some content) before (λ p _. refl)))
    ]
    | inr e ↦ simp e (discard-IsMoved m _ (put-Untouched (some m.written) before (λ p _. refl)))
  ]

  copy_file-IsMoved : (m : Moves) → IsMoved (copy_file m (some content) dst before)
  unfolding copy_file
  copy_file-IsMoved m = elim (Bool-cases m.opened) [
    | inl e ↦ elim (Bool-cases m.created) [
      | inl f ↦ simp (e, f) (copy_content-IsMoved m)
      | inr f ↦ simp (e, f) (failed-IsMoved before (λ p _. refl))
    ]
    | inr e ↦ simp e (failed-IsMoved before (λ p _. refl))
  ]

  link_or_copy-IsMoved :
      (m : Moves) (there : Option Text) → IsMoved (link_or_copy m (some content) there dst before)
  unfolding link_or_copy
  link_or_copy-IsMoved m none = elim (Bool-cases m.linked) [
    | inl e ↦ simp e (placed-IsMoved before (λ p _. refl))
    | inr e ↦ simp e (copy_file-IsMoved m)
  ]
  link_or_copy-IsMoved m (some c) = copy_file-IsMoved m

-- A move of an existing file, however the system's calls end, either succeeds with the file's whole
-- content at the destination or leaves what was there; it changes no other path but the partial
-- copy beside the destination.
pub move_file-IsMoved :
    (m : Moves) (src dst content : Text) (files : Files)
    → files src ≡ some content
    → IsMoved dst content files (move_file m src dst files)
unfolding move_file
move_file-IsMoved m src dst content files e = elim (Bool-cases m.made_dir) [
  | inl f ↦ simp (f, e) (link_or_copy-IsMoved dst content files m (files dst))
  | inr f ↦ simp f (failed-IsMoved dst content files files (λ p _. refl))
]
