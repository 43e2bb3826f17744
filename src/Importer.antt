-- ===== src/Importer.antt =====
-- internal/importer/import.go: a finished download is moved into the library. `filepath.Join` is a
-- parameter, as are the answers of the operating system and the stores.
pub mod Moving
pub mod Folder
use sonarr.Common.{
  ℕ, suc, ◌==◌, Text, codes, text_eq, to_lower, ltb_ℤ, ℤ, pos, Bool, true, false, not, ◌&&◌, List,
  [], ◌∷◌, ◌++◌, map, Option, none, some, if◌then◌else◌, any, find, leb, length,
}
use sonarr.Parser.Types.{ParsedEpisodeInfo, ParsedQuality, source_text, resolution_text}
use sonarr.Parser.Patterns.{Find}
use sonarr.Parser.Title.{parse_title}
use sonarr.Organizer.{EpisodeInfo, default_episode_format, build_filename, build_season_folder}
use sonarr.Library.{Series, Episode, list_for_series, Write, saved, saved_unreported, unsaved}

-- The file system: what each path holds.
abbrev pub Files : Type 0
Files = Text → Option Text

unfoldable pub put_file : Text → Option Text → Files → Files
put_file path content files p = if text_eq p path then content else files p

-- The answers of the operating system to one move; `written` is what a failed copy has written.
pub record Moves : Type 0 where
  pub made_dir : Bool
  pub linked : Bool
  pub opened : Bool
  pub created : Bool
  pub copied : Bool
  pub written : Text
  pub closed : Bool
  pub removed : Bool
  pub renamed : Bool

abbrev pub partial : Text → Text
partial dst = dst ++ codes ".partial"

-- `os.Remove(partial)`, then the error.
discard : Moves → Text → Files → Files × Bool
unfolding put_file
discard m dst files = (if m.removed then put_file (partial dst) none files else files, false)

rename : Moves → Text → Text → Files → Files × Bool
unfolding put_file
rename m dst content files =
    if m.renamed
    then (put_file dst (some content) (put_file (partial dst) none files), true)
    else (files, false)

copy_content : Moves → Text → Text → Files → Files × Bool
unfolding put_file discard rename
copy_content m dst content files =
    if not m.copied
    then discard m dst (put_file (partial dst) (some m.written) files)
    else if not m.closed
    then discard m dst (put_file (partial dst) (some content) files)
    else rename m dst content (put_file (partial dst) (some content) files)

-- The content is that of the source before `os.Create`: a source that is the partial copy itself, which
-- `os.Create` would empty, is not modelled.
unfoldable pub copy_file : Moves → Option Text → Text → Files → Files × Bool
unfolding copy_content
copy_file m none dst files = (files, false)
copy_file m (some content) dst files =
    if not m.opened
    then (files, false)
    else if not m.created
    then (files, false)
    else copy_content m dst content files

-- `os.Link` takes an existing source and a free destination.
link_or_copy : Moves → Option Text → Option Text → Text → Files → Files × Bool
unfolding put_file copy_file
link_or_copy m (some content) none dst files =
    if m.linked
    then (put_file dst (some content) files, true)
    else copy_file m (some content) dst files
link_or_copy m source other dst files = copy_file m source dst files

unfoldable pub move_file : Moves → Text → Text → Files → Files × Bool
unfolding link_or_copy
move_file m src dst files =
    if m.made_dir then link_or_copy m (files src) (files dst) dst files else (files, false)

-- `filepath.Ext`, with the name before it, of a name without a slash.
unfoldable pub split_ext : Text → Option (Text × Text)
split_ext [] = none
split_ext (c ∷ s) = elim (split_ext s) [
  | some (base, ext) ↦ some (c ∷ base, ext)
  | none ↦ if c == b'.' then some ([], c ∷ s) else none
]

unfoldable pub base_and_ext : Text → Text × Text
unfolding split_ext
base_and_ext name = elim (split_ext name) [ none ↦ (name, []) | some p ↦ p ]

unfoldable pub is_media_file : Text → Bool
unfolding base_and_ext
is_media_file name =
    any (λ ext. text_eq ext (to_lower (base_and_ext name).1))
      (codes ".mkv" ∷ codes ".mp4" ∷ codes ".avi" ∷ codes ".ts" ∷ codes ".wmv" ∷ codes ".flv" ∷ [])

unfoldable pub is_unpacking : Text → Bool
unfolding base_and_ext
is_unpacking name =
    any (λ ext. text_eq ext (to_lower (base_and_ext name).1))
      (codes ".rar" ∷ codes ".r00" ∷ codes ".part" ∷ [])

-- `strings.Join` of what is not empty.
dashed : Text → Text → Text
dashed [] [] = codes "Unknown"
dashed [] (r ∷ resolution) = r ∷ resolution
dashed (s ∷ source) [] = s ∷ source
dashed (s ∷ source) (r ∷ resolution) = (s ∷ source) ++ codes "-" ++ (r ∷ resolution)

unfoldable pub quality_full_name : ParsedQuality → Text
unfolding dashed
quality_full_name q = dashed (source_text q.source) (resolution_text q.resolution)

unfoldable pub find_episode : List Episode → ℕ → ℕ → Option Episode
find_episode episodes season number =
    find (λ ep. (ep.season_number == season) && (ep.episode_number == number)) episodes

abbrev pub min_size_bytes : ℤ
min_size_bytes = pos 41_943_040

-- A row of episode_files.
pub record EpisodeFile : Type 0 where
  pub id : ℕ
  pub series_id : ℕ
  pub season_number : ℕ
  pub relative_path : Text
  pub size : ℤ
  pub release_group : Text
  pub quality_name : Text

-- history.Entry of the type "downloadFolderImported".
pub record Entry : Type 0 where
  pub episode_id : ℕ
  pub series_id : ℕ
  pub source_title : Text
  pub quality_name : Text
  pub download_id : Text

pub record World : Type 0 where
  pub files : Files
  pub rows : List EpisodeFile
  pub next_file_id : ℕ
  pub episodes : List Episode
  pub history : List Entry

-- What the environment answers for one file.
pub record Answers : Type 0 where
  pub size : Option ℤ
  pub moves : Moves
  pub creates : Write
  pub updates : Write
  pub recorded : Bool

-- How the import of a file ends; those before `not_found` return nil.
pub data Result : Type 0 where
  imported sample no_number no_episode not_found not_moved not_recorded not_updated : Result
