-- ===== src/Common/Trimming.antt =====
-- What holds of every character of a text holds of every character of the trimmed text.
use mathlib.Core.List.{reverse, reverse-cons}
use mathlib.Core.List.{[], ◌∷◌, ◌++◌}
use native.Mathlib.Omega.{arith}
use sonarr.Common.Lists.{All}
use sonarr.Common.Texts.{Text, trim_left, trim_space}
use Prim.Native.Nat.{ℕ}

module _ {κ} (P : ℕ → Type κ) where
  trim_left-All : (s : Text) → All P s → All P (trim_left s)
  unfolding trim_left
  trim_left-All [] l = tt
  trim_left-All (a ∷ s) l = ground (arith, trim_left-All s)

  append_one-All : (s : Text) (a : ℕ) → All P s → P a → All P (s ++ a ∷ [])
  append_one-All [] a l k = (k, tt)
  append_one-All (b ∷ s) a l k = (l.0, append_one-All s a l.1 k)

  reverse-All : (s : Text) → All P s → All P (reverse s)
  reverse-All [] l = tt
  reverse-All (a ∷ s) l =
      rw (reverse-cons a s) (append_one-All (reverse s) a (reverse-All s l.1) l.0)

  pub All-trim_space : (s : Text) → All P s → All P (trim_space s)
  unfolding trim_space
  All-trim_space s l = reverse-All _ (trim_left-All _ (reverse-All _ (trim_left-All s l)))
