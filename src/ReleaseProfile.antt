-- ===== src/ReleaseProfile.antt =====
-- internal/releaseprofile/releaseprofile.go: "must contain / must not contain" terms. The regular
-- expressions of Go's `regexp` are a parameter: `compile` gives the test of a pattern, or `none`.
pub mod Terms
use sonarr.Common.{
  ℕ, zero, suc, Text, codes, to_lower, contains, has_prefix, Bool, true, false, not, ◌&&◌, List, [],
  ◌∷◌, ◌++◌, Option, none, some, if◌then◌else◌, leb, length,
}
use mathlib.Core.List.{reverse}

pub record Profile : Type 0 where
  pub id : ℕ
  pub name : Text
  pub enabled : Bool
  pub required : List Text
  pub ignored : List Text
  pub indexer_id : ℕ
  pub tags : List ℕ

-- `strings.HasSuffix`.
has_suffix : Text → Text → Bool
has_suffix p s = has_prefix (reverse p) (reverse s)

-- `term[1 : len(term)-1]`.
drop_last : Text → Text
drop_last [] = []
drop_last (a ∷ []) = []
drop_last (a ∷ b ∷ s) = a ∷ drop_last (b ∷ s)

inner : Text → Text
unfolding drop_last
inner [] = []
inner (a ∷ s) = drop_last s

is_regex : Text → Bool
unfolding has_suffix
is_regex term = leb 2 (length term) && has_prefix (codes "/") term && has_suffix (codes "/") term

module _ (compile : Text → Option (Text → Bool)) where
  regex_matches : Text → Text → Bool
  unfolding inner
  regex_matches term title = elim (compile (codes "(?i)" ++ inner term)) [
    | none ↦ false
    | some re ↦ re title
  ]

  unfoldable pub term_matches : Text → Text → Bool
  unfolding is_regex regex_matches
  term_matches [] title = true
  term_matches (c ∷ cs) title =
      if is_regex (c ∷ cs)
      then regex_matches (c ∷ cs) title
      else contains (to_lower title) (to_lower (c ∷ cs))

  unfoldable pub all_required : List Text → Text → Bool
  all_required [] title = true
  all_required (t ∷ ts) title = if term_matches t title then all_required ts title else false

  unfoldable pub none_ignored : List Text → Text → Bool
  none_ignored [] title = true
  none_ignored (t ∷ ts) title = if term_matches t title then false else none_ignored ts title

  -- The loop over `Required` returns early, or goes on to the loop over `Ignored`.
  unfoldable pub match : Profile → Text → Bool
  unfolding all_required none_ignored
  match p title = if all_required p.required title then none_ignored p.ignored title else false
