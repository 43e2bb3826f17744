-- ===== src/Organizer/Names.antt =====
-- Which characters a file name cannot have.
use sonarr.Common.{ℕ, Text, List, [], ◌∷◌, ◌≢◌, inl, inr, refl, arith, All, In}
use sonarr.Common.Trimming.{All-trim_space}
use sonarr.Organizer.{
  EpisodeInfo, without, without_all, illegal, clean_filename, substitute, build_filename,
}

abbrev Lacks : ℕ → Text → Type 0
Lacks c = All (λ d. d ≢ c)

without-Lacks : (c : ℕ) (s : Text) → Lacks c (without c s)
unfolding without
without-Lacks c [] = tt
without-Lacks c (d ∷ s) = ground (arith, without-Lacks c s)

without-Lacks_other : (c d : ℕ) (s : Text) → Lacks c s → Lacks c (without d s)
unfolding without
without-Lacks_other c d [] l = tt
without-Lacks_other c d (e ∷ s) l = ground (arith, without-Lacks_other c d s)

without_all-keeps : (c : ℕ) (cs : List ℕ) (s : Text) → Lacks c s → Lacks c (without_all cs s)
unfolding without_all
without_all-keeps c [] s l = l
without_all-keeps c (d ∷ cs) s l =
    without_all-keeps c cs (without d s) (without-Lacks_other c d s l)

without_all-Lacks : (c : ℕ) (cs : List ℕ) (s : Text) → In c cs → Lacks c (without_all cs s)
unfolding without_all
without_all-Lacks c [] s m = absurd m
without_all-Lacks c (d ∷ cs) s (inl e) =
    without_all-keeps c cs (without d s) (rw e (without-Lacks d s))
without_all-Lacks c (d ∷ cs) s (inr m) = without_all-Lacks c cs (without d s) m

-- None of the nine characters / \ : * ? " < > |.
abbrev pub IsPermitted : ℕ → Type 0
IsPermitted d =
    (d ≢ b'/')
    × (d ≢ b'\\')
    × (d ≢ b':')
    × (d ≢ b'*')
    × (d ≢ b'?')
    × (d ≢ b'"')
    × (d ≢ b'<')
    × (d ≢ b'>')
    × (d ≢ b'|')

illegal-IsPermitted : (d : ℕ) → ((c : ℕ) → In c illegal → d ≢ c) → IsPermitted d
unfolding illegal
illegal-IsPermitted d h = (
  h b'/' (inl refl),
  h b'\\' (inr (inl refl)),
  h b':' (inr (inr (inl refl))),
  h b'*' (inr (inr (inr (inl refl)))),
  h b'?' (inr (inr (inr (inr (inl refl))))),
  h b'"' (inr (inr (inr (inr (inr (inl refl)))))),
  h b'<' (inr (inr (inr (inr (inr (inr (inl refl))))))),
  h b'>' (inr (inr (inr (inr (inr (inr (inr (inl refl)))))))),
  h b'|' (inr (inr (inr (inr (inr (inr (inr (inr (inl refl))))))))),
)

-- A text that lacks each illegal character consists of permitted ones.
All-IsPermitted : (s : Text) → ((c : ℕ) → In c illegal → Lacks c s) → All IsPermitted s
All-IsPermitted [] h = tt
All-IsPermitted (d ∷ s) h =
    (illegal-IsPermitted d (λ c m. (h c m).0), All-IsPermitted s (λ c m. (h c m).1))

-- A built file name has no slash, backslash, colon, asterisk, question mark, double quote, angle
-- bracket or bar, whatever the titles hold.
pub build_filename-IsLegal :
    (format : Text) (info : EpisodeInfo) → All IsPermitted (build_filename format info)
unfolding build_filename clean_filename
build_filename-IsLegal format info =
    All-IsPermitted _ (λ c m.
      All-trim_space (λ d. d ≢ c) _ (without_all-Lacks c illegal (substitute format info) m))
