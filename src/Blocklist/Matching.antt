-- ===== src/Blocklist/Matching.antt =====
-- Which titles the blocklist stops.
use sonarr.Common.{ℕ, Text, text_eq_iff, false, List, [], ◌∷◌, ◌≡◌, ◌↔◌, arith, refl, All}
use sonarr.Blocklist.{Entry, matches}

-- A title passes the blocklist of a series exactly when no entry of that series has it.
pub matches-All :
    (entries : List Entry) (series : ℕ) (title : Text)
    → (matches entries series title ≡ false)
      ↔ All (λ e. ¬ ((e.series_id ≡ series) × (e.source_title ≡ title))) entries
unfolding matches
matches-All [] series title = ((λ _. tt), (λ _. refl))
matches-All (e ∷ entries) series title =
    ground (arith, text_eq_iff e.source_title title, matches-All entries series title)
