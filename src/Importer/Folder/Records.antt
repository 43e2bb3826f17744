-- ===== src/Importer/Folder/Records.antt =====
-- Episodes point to recorded files only.
use sonarr.Common.{
  ℕ, ◌==◌, Text, ltb_ℤ, ℤ, Bool, true, false, List, [], ◌∷◌, ◌++◌, Option, none, some, ◌≡◌, inl,
  inr, refl, All, In, any, Bool-cases, not, ◌&&◌,
}
use sonarr.Parser.Types.{ParsedEpisodeInfo}
use sonarr.Parser.Patterns.{Find}
use sonarr.Library.{update_episode, Series, Episode, Write, saved, saved_unreported, unsaved}
use sonarr.Importer.{is_media_file, EpisodeFile, World, Answers, min_size_bytes}
use sonarr.Importer.Folder.{
  record_history, link_episode, after_update, add_row, after_create, after_move, import_matched,
  import_numbered, import_sized, import_file, DirEntry, import_entries, is_sentinel, with_series,
  with_entries, process_folder,
}

-- The file id is that of a row.
abbrev pub IsRecorded : List EpisodeFile → Option ℕ → Type 0
IsRecorded rows none = Unit
IsRecorded rows (some id) = (r : EpisodeFile) × In r rows × (r.id ≡ id)

abbrev pub AllRecorded : World → Type 0
AllRecorded w = All (λ e. IsRecorded w.rows e.episode_file_id) w.episodes

In-append_left : (r : EpisodeFile) (rows more : List EpisodeFile) → In r rows → In r (rows ++ more)
In-append_left r [] more m = absurd m
In-append_left r (x ∷ rows) more (inl e) = inl e
In-append_left r (x ∷ rows) more (inr m) = inr (In-append_left r rows more m)

In-append_one : (r : EpisodeFile) (rows : List EpisodeFile) → In r (rows ++ r ∷ [])
In-append_one r [] = inl refl
In-append_one r (x ∷ rows) = inr (In-append_one r rows)

IsRecorded-append :
    (rows more : List EpisodeFile) (id : Option ℕ)
    → IsRecorded rows id
    → IsRecorded (rows ++ more) id
IsRecorded-append rows more none h = tt
IsRecorded-append rows more (some id) (r, m, e) = (r, In-append_left r rows more m, e)

All-append :
    (rows more : List EpisodeFile) (eps : List Episode)
    → All (λ e. IsRecorded rows e.episode_file_id) eps
    → All (λ e. IsRecorded (rows ++ more) e.episode_file_id) eps
All-append rows more [] h = tt
All-append rows more (e ∷ eps) h =
    (IsRecorded-append rows more e.episode_file_id h.0, All-append rows more eps h.1)

All-update :
    (rows : List EpisodeFile) (ep : Episode) (eps : List Episode)
    → IsRecorded rows ep.episode_file_id
    → All (λ e. IsRecorded rows e.episode_file_id) eps
    → All (λ e. IsRecorded rows e.episode_file_id) (update_episode ep eps)
unfolding update_episode
All-update rows ep [] r h = tt
All-update rows ep (e ∷ eps) r h = elim (Bool-cases (e.id == ep.id)) [
  | inl q ↦ simp q (r, All-update rows ep eps r h.1)
  | inr q ↦ simp q (h.0, All-update rows ep eps r h.1)
]

module _ (join : Text → Text → Text) (find : Find) (series : Series) (download_id : Text) where
  after_update-AllRecorded :
      (o : Write) (env : Answers) (filename quality : Text) (ep : Episode) (file_id : ℕ) (w : World)
      → IsRecorded w.rows (some file_id)
      → AllRecorded w
      → AllRecorded
          (after_update join find series download_id o env filename quality ep file_id w).0
  unfolding after_update link_episode
  after_update-AllRecorded saved env filename quality ep file_id w r h = recorded env.recorded
    where
      recorded :
          (b : Bool)
          → AllRecorded (
              record_history join find series download_id b filename quality ep
                (link_episode join find series download_id file_id ep w))
      recorded false =
          All-update w.rows (record ep { episode_file_id = some file_id }) w.episodes r h
      recorded true =
          All-update w.rows (record ep { episode_file_id = some file_id }) w.episodes r h
  after_update-AllRecorded saved_unreported env filename quality ep file_id w r h =
      All-update w.rows (record ep { episode_file_id = some file_id }) w.episodes r h
  after_update-AllRecorded unsaved env filename quality ep file_id w r h = h

  add_row-AllRecorded :
      (path : Text) (parsed : ParsedEpisodeInfo) (size : ℤ) (w : World)
      → AllRecorded w
      → AllRecorded (add_row join find series download_id path parsed size w)
        × IsRecorded
            (add_row join find series download_id path parsed size w).rows
            (some w.next_file_id)
  unfolding add_row
  add_row-AllRecorded path parsed size w h =
      (All-append w.rows _ w.episodes h, (_, In-append_one _ w.rows, refl))

  after_create-AllRecorded :
      (o : Write) (env : Answers) (filename path : Text) (parsed : ParsedEpisodeInfo) (size : ℤ)
      (ep : Episode) (w : World)
      → AllRecorded w
      → AllRecorded
          (after_create join find series download_id o env filename path parsed size ep w).0
  unfolding after_create
  after_create-AllRecorded saved env filename path parsed size ep w h =
      let (a, r) = add_row-AllRecorded path parsed size w h in
      after_update-AllRecorded env.updates env filename _ ep w.next_file_id _ r a
  after_create-AllRecorded saved_unreported env filename path parsed size ep w h =
      (add_row-AllRecorded path parsed size w h).0
  after_create-AllRecorded unsaved env filename path parsed size ep w h = h

  after_move-AllRecorded :
      (b : Bool) (env : Answers) (filename path : Text) (parsed : ParsedEpisodeInfo) (size : ℤ)
      (ep : Episode) (w : World)
      → AllRecorded w
      → AllRecorded (after_move join find series download_id b env filename path parsed size ep w).0
  unfolding after_move
  after_move-AllRecorded false env filename path parsed size ep w h = h
  after_move-AllRecorded true env filename path parsed size ep w h =
      after_create-AllRecorded env.creates env filename path parsed size ep w h

  import_matched-AllRecorded :
      (o : Option Episode) (env : Answers) (src filename : Text) (parsed : ParsedEpisodeInfo)
      (number : ℕ) (size : ℤ) (w : World)
      → AllRecorded w
      → AllRecorded
          (import_matched join find series download_id o env src filename parsed number size w).0
  unfolding import_matched
  import_matched-AllRecorded none env src filename parsed number size w h = h
  import_matched-AllRecorded (some ep) env src filename parsed number size w h =
      after_move-AllRecorded _ env filename _ parsed size ep _ h

  import_numbered-AllRecorded :
      (numbers : List ℕ) (env : Answers) (src filename : Text) (parsed : ParsedEpisodeInfo)
      (episodes : List Episode) (size : ℤ) (w : World)
      → AllRecorded w
      → AllRecorded
          (import_numbered join find series download_id numbers env src filename parsed episodes
            size w).0
  unfolding import_numbered
  import_numbered-AllRecorded [] env src filename parsed episodes size w h = h
  import_numbered-AllRecorded (n ∷ ns) env src filename parsed episodes size w h =
      import_matched-AllRecorded _ env src filename parsed n size w h

  import_sized-AllRecorded :
      (o : Option ℤ) (env : Answers) (src filename : Text) (episodes : List Episode) (w : World)
      → AllRecorded w
      → AllRecorded (import_sized join find series download_id o env src filename episodes w).0
  unfolding import_sized
  import_sized-AllRecorded none env src filename episodes w h = h
  import_sized-AllRecorded (some size) env src filename episodes w h =
      elim (Bool-cases (ltb_ℤ size min_size_bytes)) [
        | inl e ↦ simp e h
        | inr e ↦ simp e (import_numbered-AllRecorded _ env src filename _ episodes size w h)
      ]

  import_entries-AllRecorded :
      (env : Text → Answers) (folder : Text) (entries : List DirEntry) (episodes : List Episode)
      (w : World)
      → AllRecorded w
      → AllRecorded (import_entries join find series download_id env folder entries episodes w)
  unfolding import_entries import_file
  import_entries-AllRecorded env folder [] episodes w h = h
  import_entries-AllRecorded env folder (e ∷ entries) episodes w h =
      elim (Bool-cases (not e.is_dir && is_media_file e.name)) [
        | inl q ↦ simp q (
            import_entries-AllRecorded env folder entries episodes _
              (import_sized-AllRecorded (env e.name).size (env e.name) _ e.name episodes w h))
        | inr q ↦ simp q (import_entries-AllRecorded env folder entries episodes w h)
      ]

module _ (join : Text → Text → Text) (find : Find) (env : Text → Answers) (folder : Text)
    (download_id : Text) where
  with_series-AllRecorded :
      (entries : List DirEntry) (series : Option Series) (listed : Bool) (w : World)
      → AllRecorded w
      → AllRecorded (with_series join find env folder download_id entries series listed w).0
  unfolding with_series
  with_series-AllRecorded entries none listed w h = h
  with_series-AllRecorded entries (some series) true w h =
      import_entries-AllRecorded join find series download_id env folder entries _ w h
  with_series-AllRecorded entries (some series) false w h = h

  -- If every episode with a file points to a recorded file, the same holds after a folder was
  -- processed, whichever moves and writes fail.
  pub process_folder-AllRecorded :
      (entries : Option (List DirEntry)) (series : Option Series) (listed : Bool) (w : World)
      → AllRecorded w
      → AllRecorded (process_folder join find env folder download_id entries series listed w).0
  unfolding process_folder with_entries
  process_folder-AllRecorded none series listed w h = h
  process_folder-AllRecorded (some entries) series listed w h =
      elim (Bool-cases (any is_sentinel entries)) [
        | inl q ↦ simp q h
        | inr q ↦ simp q (with_series-AllRecorded entries series listed w h)
      ]
