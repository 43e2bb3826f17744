-- ===== src/Housekeeping/Orphans.antt =====
-- Which rows of episode files a housekeeping run deletes.
use sonarr.Common.{
  ℕ, ◌==◌, ==_iff, Text, Bool, true, false, not, ◌&&◌, ◌||◌, List, [], ◌∷◌, Option, none, some, ◌≡◌,
  refl, sym, ap, ◌∙◌, subst, ◌↔◌, inl, inr, arith, In, In-select, select-In, any, select,
  Bool-cases, if◌then◌else◌, ℤ,
}
use sonarr.Library.{Write, saved, saved_unreported, unsaved}
use sonarr.Housekeeping.{
  EpisodeFileInfo, SeriesInfo, World, Answers, retention_of, trim_history, delete_row, clean_files,
  clean_one, clean_series, clean_listed, clean_orphan_episode_files, recompute_listed,
  recalculate_statistics, vacuum_database, run,
}

any-exists :
    {A : Type 0} (p : A → Bool) (xs : List A) → any p xs ≡ true → (a : A) × In a xs × (p a ≡ true)
any-exists p [] h = absurd (cc)
any-exists p (x ∷ xs) h = elim (Bool-cases (p x)) [
  | inl e ↦ (x, inl refl, e)
  | inr e ↦ let (a, m, q) = any-exists p xs (ground arith) in (a, inr m, q)
]

any-In : {A : Type 0} (p : A → Bool) (a : A) (xs : List A) → In a xs → p a ≡ true → any p xs ≡ true
any-In p a [] m h = absurd m
any-In p a (x ∷ xs) m h = ground (arith, any-In p a xs)

-- No two rows have one id.
abbrev pub HasUniqueIds : List EpisodeFileInfo → Type 0
HasUniqueIds files = (f g : EpisodeFileInfo) → In f files → In g files → f.id ≡ g.id → f ≡ g

abbrev pub is_written : Write → Bool
is_written unsaved = false
is_written saved = true
is_written saved_unreported = true

module _ (env : Answers) where
  -- The file is not there and its row can be deleted.
  abbrev pub is_gone : Text → EpisodeFileInfo → Bool
  is_gone path f = env.missing (env.join path f.relative_path) && is_written (env.deletes f.id)

  select_other :
      (id : ℕ) (files : List EpisodeFileInfo) (f : EpisodeFileInfo)
      → In f (select (λ g. not (g.id == id)) files) ↔ (In f files × ((f.id == id) ≡ false))
  select_other id files f = (
    (λ m. let (n, p) = select-In (λ g. not (g.id == id)) f files m in (n, ground arith)),
    λ h. In-select (λ g. not (g.id == id)) f files (ground arith) h.0,
  )

  delete_if-In :
      (b : Bool) (w : Write) (id : ℕ) (files : List EpisodeFileInfo) (f : EpisodeFileInfo)
      → In f (if b then delete_row w id files else files)
        ↔ (In f files × (((b && is_written w) && (f.id == id)) ≡ false))
  unfolding delete_row
  delete_if-In false w id files f = ((λ m. (m, refl)), λ h. h.0)
  delete_if-In true unsaved id files f = ((λ m. (m, refl)), λ h. h.0)
  delete_if-In true saved id files f = select_other id files f
  delete_if-In true saved_unreported id files f = select_other id files f

  both : (x y : Bool) → x ≡ false → y ≡ false → (x || y) ≡ false
  both x y h k = ground arith

  parts : (x y : Bool) → (x || y) ≡ false → (x ≡ false) × (y ≡ false)
  parts x y h = ground arith

  abbrev is_doomed : Text → List EpisodeFileInfo → EpisodeFileInfo → Bool
  is_doomed path gs f = any (λ g. is_gone path g && (f.id == g.id)) gs

  clean_files-In :
      (path : Text) (gs files : List EpisodeFileInfo) (f : EpisodeFileInfo)
      → In f (clean_files env path gs files) ↔ (In f files × (is_doomed path gs f ≡ false))
  unfolding clean_files
  clean_files-In path [] files f = ((λ m. (m, refl)), λ h. h.0)
  clean_files-In path (g ∷ gs) files f =
      let b = env.missing (env.join path g.relative_path) in
      let rest =
        clean_files-In path gs (if b then delete_row (env.deletes g.id) g.id files else files) f in
      let one = delete_if-In b (env.deletes g.id) g.id files f in
      (
        (λ m. let (n, p) = rest.0 m in let (o, q) = one.0 n in (o, both _ _ q p)),
        λ h. rest.1 (one.1 (h.0, (parts _ _ h.1).0), (parts _ _ h.1).1),
      )

  -- The row's series is listed with its files, and its file is gone.
  abbrev pub is_orphan : SeriesInfo → EpisodeFileInfo → Bool
  is_orphan s f = env.lists s.id && ((f.series_id == s.id) && is_gone s.path f)

  both_true : (x y z : Bool) → x ≡ true → (y && z) ≡ true → (x && y) ≡ true
  both_true x y z h k = ground arith

  doomed-orphan :
      (s : SeriesInfo) (files : List EpisodeFileInfo) (f : EpisodeFileInfo)
      → HasUniqueIds files
      → In f files
      → is_doomed s.path (select (λ g. g.series_id == s.id) files) f
        ≡ ((f.series_id == s.id) && is_gone s.path f)
  doomed-orphan s files f u m =
      elim (Bool-cases (is_doomed s.path (select (λ g. g.series_id == s.id) files) f)) [
        | inl e ↦
            let (g, n, q) = any-exists _ (select (λ g. g.series_id == s.id) files) e in
            let (o, r) = select-In (λ g. g.series_id == s.id) g files n in
            let same : f ≡ g = u f g m o ((==_iff f.id g.id).0 (ground arith)) in
            e ∙ sym (ap (λ x. (x.series_id == s.id) && is_gone s.path x) same ∙ both_true _ _ _ r q)
        | inr e ↦ elim (Bool-cases ((f.series_id == s.id) && is_gone s.path f)) [
          | inl k ↦ absurd (
              cc (
                e,
                any-In (λ g. is_gone s.path g && (f.id == g.id)) f
                    (select (λ g. g.series_id == s.id) files)
                    (In-select (λ g. g.series_id == s.id) f files (ground arith) m) (ground arith),
              ))
          | inr k ↦ e ∙ sym k
        ]
      ]

  clean_one-In :
      (s : SeriesInfo) (files : List EpisodeFileInfo) (f : EpisodeFileInfo)
      → HasUniqueIds files
      → In f (clean_one env s files) ↔ (In f files × (is_orphan s f ≡ false))
  unfolding clean_one
  clean_one-In s files f u = elim (Bool-cases (env.lists s.id)) [
    | inr e ↦ simp e ((λ m. (m, refl)), λ h. h.0)
    | inl e ↦ simp e (
      (λ m. let (n, p) = all.0 m in (n, sym (doomed-orphan s files f u n) ∙ p)),
      λ h. all.1 (h.0, doomed-orphan s files f u h.0 ∙ h.1),
    )
  ]
    where
      all :
          In f (clean_files env s.path (select (λ g. g.series_id == s.id) files) files)
          ↔ (In f files × (is_doomed s.path (select (λ g. g.series_id == s.id) files) f ≡ false))
      all = clean_files-In s.path (select (λ g. g.series_id == s.id) files) files f

  clean_series-In :
      (ss : List SeriesInfo) (files : List EpisodeFileInfo) (f : EpisodeFileInfo)
      → HasUniqueIds files
      → In f (clean_series env ss files) ↔ (In f files × (any (λ s. is_orphan s f) ss ≡ false))
  unfolding clean_series
  clean_series-In [] files f u = ((λ m. (m, refl)), λ h. h.0)
  clean_series-In (s ∷ ss) files f u =
      let one = clean_one-In s files f u in
      let rest = clean_series-In ss (clean_one env s files) f (λ g k a b e.
        u g k ((clean_one-In s files g u).0 a).0 ((clean_one-In s files k u).0 b).0 e) in
      (
        (λ m. let (n, p) = rest.0 m in let (o, q) = one.0 n in (o, both _ _ q p)),
        λ h. rest.1 (one.1 (h.0, (parts _ _ h.1).0), (parts _ _ h.1).1),
      )

  -- Some listed series has the row as an orphan.
  abbrev pub has_orphan : Option (List SeriesInfo) → EpisodeFileInfo → Bool
  has_orphan none f = false
  has_orphan (some ss) f = any (λ s. is_orphan s f) ss

  clean_listed-In :
      (o : Option (List SeriesInfo)) (w : World) (f : EpisodeFileInfo)
      → HasUniqueIds w.files
      → In f (clean_listed env o w).files ↔ (In f w.files × (has_orphan o f ≡ false))
  unfolding clean_listed
  clean_listed-In none w f u = ((λ m. (m, refl)), λ h. h.0)
  clean_listed-In (some ss) w f u = clean_series-In ss w.files f u

  trim-files : (retention : ℕ) (w : World) → (trim_history env retention w).files ≡ w.files
  unfolding trim_history
  trim-files retention w = elim (Bool-cases env.trims) [ inl e ↦ simp e refl | inr e ↦ simp e refl ]

  recompute-files :
      (o : Option (List SeriesInfo)) (w : World) → (recompute_listed env o w).files ≡ w.files
  unfolding recompute_listed
  recompute-files none w = refl
  recompute-files (some ss) w = refl

  vacuum-files : (w : World) → (vacuum_database env w).files ≡ w.files
  unfolding vacuum_database
  vacuum-files w = elim (Bool-cases env.vacuums) [ inl e ↦ simp e refl | inr e ↦ simp e refl ]

  -- A housekeeping run deletes the rows whose file does not exist below the path of their series, where
  -- the series and its files can be listed and the row deleted, and no other row, whatever else fails.
  pub run-orphans :
      (retention : ℤ) (w : World) (f : EpisodeFileInfo)
      → HasUniqueIds w.files
      → In f (run env retention w).files ↔ (In f w.files × (has_orphan env.series f ≡ false))
  unfolding run clean_orphan_episode_files recalculate_statistics
  run-orphans retention w f u =
      rw (vacuum-files, recompute-files)
        (subst
          (λ x.
            In f (clean_listed env env.series (trim_history env (retention_of retention) w)).files
            ↔ (In f x × (has_orphan env.series f ≡ false)))
          (trim-files (retention_of retention) w)
          (clean_listed-In env.series (trim_history env (retention_of retention) w) f
            (subst HasUniqueIds (sym (trim-files (retention_of retention) w)) u)))
