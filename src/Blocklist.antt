-- ===== src/Blocklist.antt =====
-- internal/blocklist/blocklist.go: `Matches`, and the fields of an entry that it reads.
pub mod Matching
use sonarr.Common.{ℕ, Text, text_eq, ◌==◌, Bool, true, false, ◌&&◌, List, [], ◌∷◌, if◌then◌else◌}

pub record Entry : Type 0 where
  pub series_id : ℕ
  pub source_title : Text

-- Whether some entry blocks the title for the series.
unfoldable pub matches : List Entry → ℕ → Text → Bool
matches [] series title = false
matches (e ∷ entries) series title =
    if e.series_id == series && text_eq e.source_title title
    then true
    else matches entries series title
