-- ===== src/CustomFormats/Scoring.antt =====
-- The score of a release is a sum over the matching formats.
use mathlib.Core.List.{Perm, Permᴰ}
use mathlib.Core.Logic.{∥∥₁_elim}
use sonarr.Common.{
  ℕ, ℤ, pos, ◌+ℤ◌, int_laws, Text, Bool, List, [], ◌∷◌, Option, ◌≡◌, refl, ◌∙◌, if◌then◌else◌, ◌==◌,
  Bool-cases, inl, inr,
}
use sonarr.Parser.Types.{ParsedEpisodeInfo}
use sonarr.Profiles.{QualityProfile, FormatScoreItem}
use sonarr.CustomFormats.{CustomFormat, match, build_weights, add_matches, score}

ℤ-set : IsSet ℤ
ℤ-set = hlevel

-- The weight that the last item of a format gives it.
pub last_weight : ℕ → List FormatScoreItem → ℤ → ℤ
last_weight id [] w = w
last_weight id (fi ∷ items) w = last_weight id items (if id == fi.format_id then fi.score else w)

module _ (compile : Text → Option (Text → Bool)) where
  build_weights-last_weight :
      (weights : ℕ → ℤ) (items : List FormatScoreItem) (id : ℕ)
      → build_weights compile weights items id ≡ last_weight id items (weights id)
  unfolding build_weights last_weight
  build_weights-last_weight weights [] id = refl
  build_weights-last_weight weights (fi ∷ items) id =
      build_weights-last_weight (λ j. if j == fi.format_id then fi.score else weights j) items id

  -- What one format adds.
  pub contribution : ParsedEpisodeInfo → QualityProfile → CustomFormat → ℤ
  contribution info profile cf =
      if match compile info cf then last_weight cf.id profile.format_items (pos 0) else pos 0

  pub total : ParsedEpisodeInfo → QualityProfile → List CustomFormat → ℤ
  total info profile [] = pos 0
  total info profile (cf ∷ formats) = contribution info profile cf +ℤ total info profile formats

  add_matches-total :
      (start : ℤ) (info : ParsedEpisodeInfo) (formats : List CustomFormat)
      (profile : QualityProfile)
      → add_matches compile
          (build_weights compile (λ _. pos 0) profile.format_items)
          start
          info
          formats
        ≡ start +ℤ total info profile formats
  unfolding add_matches total contribution
  add_matches-total start info [] profile = omega int_laws
  add_matches-total start info (cf ∷ formats) profile = elim (Bool-cases (match compile info cf)) [
    | inl e ↦
        let ih =
          add_matches-total (start +ℤ last_weight cf.id profile.format_items (pos 0)) info formats
            profile in
        rw (e, build_weights-last_weight) (ih ∙ omega int_laws)
    | inr e ↦ rw e (add_matches-total start info formats profile ∙ omega int_laws)
  ]

  -- A release's score is the sum, over the formats that it matches, of the weight that the last
  -- item of the profile for that format gives it, or 0.
  pub score-total :
      (info : ParsedEpisodeInfo) (formats : List CustomFormat) (profile : QualityProfile)
      → score compile info formats profile ≡ total info profile formats
  unfolding score
  score-total info formats profile = add_matches-total (pos 0) info formats profile ∙ omega int_laws

  total-perm :
      {fs gs : List CustomFormat} (info : ParsedEpisodeInfo) (profile : QualityProfile)
      → Permᴰ fs gs
      → total info profile fs ≡ total info profile gs
  unfolding total
  total-perm info profile Permᴰ.nil = refl
  total-perm info profile (Permᴰ.cons e p) = rw (e, total-perm info profile p)
  total-perm info profile (Permᴰ.swap e d) = rw (e, d) (omega int_laws)
  total-perm info profile (Permᴰ.trans p q) = total-perm info profile p ∙ total-perm info profile q

  -- The order in which the formats are listed does not change a score.
  score-perm :
      {fs gs : List CustomFormat} (info : ParsedEpisodeInfo) (profile : QualityProfile)
      → Perm fs gs
      → score compile info fs profile ≡ score compile info gs profile
  score-perm {fs} {gs} info profile p =
      rw (score-total info fs profile, score-total info gs profile)
        (∥∥₁_elim p (ℤ-set _ _) (total-perm info profile))
