-- ===== src/RssSync/Handler/Groups.antt =====
-- What the groups hold that a run builds from the releases.
use sonarr.Common.{
  ℕ, Text, Bool, true, false, List, [], ◌∷◌, ◌++◌, Option, none, some, ◌≡◌, ◌≢◌, inl, inr, refl,
  arith, All, In, find-In, Bool-cases, subst, sym,
}
use sonarr.Parser.Patterns.{Find}
use sonarr.Parser.Title.{parse_title}
use sonarr.Profiles.{QualityDefinition, QualityProfile}
use sonarr.CustomFormats.{CustomFormat}
use sonarr.DecisionEngine.Types.{Decision, accept, reject, Rejection, Spec}
use sonarr.DecisionEngine.Engine.{evaluate}
use sonarr.Providers.{Release}
use sonarr.Library.{Episode, list_for_series}
use sonarr.Library.Listing.{list_for_series-In}
use sonarr.RssSync.{GroupKey, Candidate, Group, find_series, find_episode, same_key, add_candidate}
use sonarr.RssSync.Handler.{
  Environment, remote_of, unless_rejected, consider, consider_found, consider_numbers,
  process_matched, process_titled, process_releases,
}

-- A group has candidates, all of which satisfy a predicate for its key.
abbrev pub Holds : (GroupKey → Candidate → Type 0) → Group → Type 0
Holds P g = (g.candidates ≢ []) × All (P g.key) g.candidates

-- No two groups share a key.
abbrev pub IsDistinct : List Group → Type 0
IsDistinct [] = Unit
IsDistinct (g ∷ gs) = All (λ h. same_key h.key g.key ≡ false) gs × IsDistinct gs

All-append_one :
    {A : Type 0} (P : A → Type 0) (xs : List A) (x : A) → All P xs → P x → All P (xs ++ x ∷ [])
All-append_one P [] x h p = (p, tt)
All-append_one P (y ∷ xs) x h p = (h.0, All-append_one P xs x h.1 p)

append_one-nonempty : {A : Type 0} (xs : List A) (x : A) → (xs ++ x ∷ []) ≢ []
append_one-nonempty [] x e = cc
append_one-nonempty (y ∷ xs) x e = cc

same_key_eq : (a b : GroupKey) → same_key a b ≡ true → a ≡ b
same_key_eq a b h = ground arith

add_candidate-Holds :
    (P : GroupKey → Candidate → Type 0) (key : GroupKey) (c : Candidate) (gs : List Group)
    → P key c
    → All (Holds P) gs
    → All (Holds P) (add_candidate key c gs)
unfolding add_candidate
add_candidate-Holds P key c [] p h = (((λ e. cc), (p, tt)), tt)
add_candidate-Holds P key c (g ∷ gs) p h = elim (Bool-cases (same_key g.key key)) [
  | inl e ↦ rw e (
    (
      append_one-nonempty g.candidates c,
      All-append_one (P g.key) g.candidates c h.0.1
          (subst (λ k. P k c) (sym (same_key_eq g.key key e)) p),
    ),
    h.1,
  )
  | inr e ↦ rw e (h.0, add_candidate-Holds P key c gs p h.1)
]

add_candidate-others :
    (key k : GroupKey) (c : Candidate) (gs : List Group)
    → same_key key k ≡ false
    → All (λ h. same_key h.key k ≡ false) gs
    → All (λ h. same_key h.key k ≡ false) (add_candidate key c gs)
unfolding add_candidate
add_candidate-others key k c [] e h = (e, tt)
add_candidate-others key k c (g ∷ gs) e h = ground (arith, add_candidate-others key k c gs e)

add_candidate-IsDistinct :
    (key : GroupKey) (c : Candidate) (gs : List Group)
    → IsDistinct gs
    → IsDistinct (add_candidate key c gs)
unfolding add_candidate
add_candidate-IsDistinct key c [] h = (tt, tt)
add_candidate-IsDistinct key c (g ∷ gs) h =
    ground (arith, add_candidate-IsDistinct key c gs, add_candidate-others key g.key c gs)

module _ (compile : Text → Option (Text → Bool)) (find : Find) (specs : List Spec) {Float : Type 0}
    (env : Environment Float) (defs : List (QualityDefinition Float)) (formats : List CustomFormat)
    (profile : QualityProfile) where
  -- The candidate is an accepted release, described as `Handle` describes it, for a monitored
  -- episode of the library that the key names.
  abbrev pub IsSound : GroupKey → Candidate → Type 0
  IsSound key c =
      (ep : Episode) × In ep env.episodes
      × (ep.id ≡ c.episode_id)
      × (key ≡ record {
        series_id = ep.series_id;
        season = ep.season_number;
        episode = ep.episode_number;
      })
      × (ep.monitored ≡ true)
      × ((evaluate specs c.remote profile).0 ≡ accept)
      × (c.remote
          ≡ remote_of compile find specs env defs formats profile c.release
              (parse_title find c.release.title) ep.series_id ep)

  -- What the steps of the loops preserve.
  abbrev pub IsSoundList : List Group → Type 0
  IsSoundList gs = All (Holds IsSound) gs × IsDistinct gs

  unless_rejected-IsSound :
      (d : Decision × List Rejection) (key : GroupKey) (c : Candidate) (gs : List Group)
      → (d.0 ≡ accept → IsSound key c)
      → IsSoundList gs
      → IsSoundList (unless_rejected compile find specs env defs formats profile d key c gs)
  unfolding unless_rejected
  unless_rejected-IsSound (reject, r) key c gs p h = h
  unless_rejected-IsSound (accept, r) key c gs p h =
      (add_candidate-Holds IsSound key c gs (p refl) h.0, add_candidate-IsDistinct key c gs h.1)

  consider-IsSound :
      (rel : Release) (series_id number : ℕ) (ep : Episode) (gs : List Group)
      → In ep env.episodes
      → ep.series_id ≡ series_id
      → ep.season_number ≡ (parse_title find rel.title).season_number
      → ep.episode_number ≡ number
      → IsSoundList gs
      → IsSoundList (
          consider compile find specs env defs formats profile rel
            (parse_title find rel.title)
            series_id
            number
            ep
            gs)
  unfolding consider
  consider-IsSound rel series_id number ep gs m es en eq h = elim (Bool-cases ep.monitored) [
    | inl e ↦ rw e (unless_rejected-IsSound _ _ _ gs (λ a. (ep, m, refl, cc, e, a, cc)) h)
    | inr e ↦ rw e h
  ]

  consider_found-IsSound :
      (o : Option Episode) (rel : Release) (series_id number : ℕ) (gs : List Group)
      → find_episode
          (parse_title find rel.title).season_number
          number
          (list_for_series series_id env.episodes)
        ≡ o
      → IsSoundList gs
      → IsSoundList (
          consider_found compile find specs env defs formats profile o rel
            (parse_title find rel.title)
            series_id
            number
            gs)
  unfolding consider_found find_episode
  consider_found-IsSound none rel series_id number gs e h = h
  consider_found-IsSound (some ep) rel series_id number gs e h =
      let (m, t) = find-In _ ep _ e in
      let (n, s) = list_for_series-In series_id ep env.episodes m in
      consider-IsSound rel series_id number ep gs n s (ground (arith, t)) (ground (arith, t)) h

  consider_numbers-IsSound :
      (rel : Release) (series_id : ℕ) (numbers : List ℕ) (gs : List Group)
      → IsSoundList gs
      → IsSoundList (
          consider_numbers compile find specs env defs formats profile rel
            (parse_title find rel.title)
            series_id
            numbers
            gs)
  unfolding consider_numbers
  consider_numbers-IsSound rel series_id [] gs h = h
  consider_numbers-IsSound rel series_id (number ∷ numbers) gs h =
      consider_numbers-IsSound rel series_id numbers _
        (consider_found-IsSound _ rel series_id number gs refl h)

  process_matched-IsSound :
      (o : Option ℕ) (rel : Release) (gs : List Group)
      → IsSoundList gs
      → IsSoundList (
          process_matched compile find specs env defs formats profile o rel
            (parse_title find rel.title)
            gs)
  unfolding process_matched
  process_matched-IsSound none rel gs h = h
  process_matched-IsSound (some series_id) rel gs h = elim (Bool-cases (env.episodes_listed rel)) [
    | inl e ↦
        rw e
          (consider_numbers-IsSound rel series_id (parse_title find rel.title).episode_numbers gs h)
    | inr e ↦ rw e h
  ]

  process_titled-IsSound :
      (title : Text) (rel : Release) (gs : List Group)
      → IsSoundList gs
      → IsSoundList (
          process_titled compile find specs env defs formats profile title rel
            (parse_title find rel.title)
            gs)
  unfolding process_titled
  process_titled-IsSound [] rel gs h = h
  process_titled-IsSound (c ∷ cs) rel gs h = elim (Bool-cases (env.series_listed rel)) [
    | inl e ↦ rw e (process_matched-IsSound (find_series env.series (c ∷ cs)) rel gs h)
    | inr e ↦ rw e h
  ]

  -- Every group of a run has a key of its own and candidates only of that key: accepted releases
  -- for a monitored episode of the library.
  pub process_releases-IsSound :
      (releases : List Release) (gs : List Group)
      → IsSoundList gs
      → IsSoundList (process_releases compile find specs env defs formats profile releases gs)
  unfolding process_releases
  process_releases-IsSound [] gs h = h
  process_releases-IsSound (rel ∷ releases) gs h =
      process_releases-IsSound releases _ (process_titled-IsSound _ rel gs h)
