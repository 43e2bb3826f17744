-- ===== src/AutoTag/Tags.antt =====
-- The tags that a rule adds to a series, and what is left once they are taken away again.
use sonarr.Common.{
  ℕ, ◌+◌, ◌==◌, ==_iff, ltb, true, not, List, [], ◌∷◌, ◌++◌, ◌≡◌, ◌∙◌, ap, sym, arith, select,
  Bool-cases, inl, inr, if◌then◌else◌,
}
use mathlib.Core.List.{append_assoc, append-nil}
use sonarr.AutoTag.{Rule, holds_tag, apply_loop, apply_tags, remove_tags}

-- How often a list has a tag.
pub count : ℕ → List ℕ → ℕ
count u [] = 0
count u (t ∷ ts) = (if t == u then 1 else 0) + count u ts

holds_tag_lem : (u : ℕ) (ts : List ℕ) → holds_tag ts u ≡ ltb 0 (count u ts)
unfolding count
holds_tag_lem u [] = ground arith
holds_tag_lem u (t ∷ ts) = ground (arith, holds_tag_lem u ts)

count-append : (u : ℕ) (xs ys : List ℕ) → count u (xs ++ ys) ≡ count u xs + count u ys
unfolding count
count-append u [] ys = omega arith
count-append u (x ∷ xs) ys = rw (count-append u xs ys) (omega arith)

same_tag : (xs : List ℕ) (t u : ℕ) → (t == u) ≡ true → holds_tag xs t ≡ holds_tag xs u
same_tag xs t u e = ap (holds_tag xs) ((==_iff t u).0 e)

count-select :
    (u : ℕ) (drop xs : List ℕ)
    → count u (select (λ t. not (holds_tag drop t)) xs)
      ≡ (if holds_tag drop u then 0 else count u xs)
unfolding count
count-select u drop [] = ground arith
count-select u drop (x ∷ xs) = elim (Bool-cases (holds_tag drop x)) [
  | inl e ↦ simp e (count-select u drop xs ∙ ground (arith, same_tag drop x u))
  | inr e ↦ simp e (ground (arith, same_tag drop x u, count-select u drop xs))
]

-- Of the tags that are not seen yet, each is added once.
abbrev pub IsAdded : List ℕ → List ℕ → List ℕ → Type 0
IsAdded seen ts added =
    (u : ℕ)
    → count u added ≡ (if ltb 0 (count u seen) then 0 else if ltb 0 (count u ts) then 1 else 0)

apply_loop-IsAdded :
    (seen out ts : List ℕ)
    → (added : List ℕ) × (apply_loop seen out ts ≡ out ++ added) × IsAdded seen ts added
unfolding apply_loop count
apply_loop-IsAdded seen out [] = ([], sym (append-nil out), λ u. ground arith)
apply_loop-IsAdded seen out (t ∷ ts) = elim (Bool-cases (holds_tag seen t)) [
  | inl e ↦
      let (added, q, c) = apply_loop-IsAdded seen out ts in
      (added, simp e q, λ u. c u ∙ ground (arith, same_tag seen t u, holds_tag_lem u seen))
  | inr e ↦
      let (added, q, c) = apply_loop-IsAdded (t ∷ seen) (out ++ t ∷ []) ts in
      (
        t ∷ added,
        simp e (q ∙ append_assoc out (t ∷ []) added),
        λ u. ground (arith, c u, same_tag seen t u, holds_tag_lem u seen),
      )
]

-- A rule's tags are appended to those of the series, each once and only where the series lacks it;
-- and taking them away again leaves the tags of before that the rule does not have, as often as
-- they were there.
pub remove_tags-apply_tags :
    (existing : List ℕ) (rule : Rule)
    → ((added : List ℕ) × (apply_tags existing rule ≡ existing ++ added)
        × IsAdded existing rule.tags added)
      × ((u : ℕ)
          → count u (remove_tags (apply_tags existing rule) rule)
            ≡ (if ltb 0 (count u rule.tags) then 0 else count u existing))
unfolding apply_tags remove_tags
remove_tags-apply_tags existing rule =
    let (added, q, c) = apply_loop-IsAdded existing existing rule.tags in
    (
      (added, q, c),
      λ u.
          count-select u rule.tags _
          ∙ (rw q (ground (arith, count-append u existing added, c u, holds_tag_lem u rule.tags))),
    )
