-- ===== src/Samples/Titles.antt =====
-- Titles, file names and imports at concrete inputs.
use sonarr.Common.{
  ℕ, ◌≤◌, Text, codes, text_eq, pos, true, false, List, [], ◌∷◌, ◌++◌, none, some, ◌≡◌, ◌≢◌, ◌↔◌,
  refl, arith, All, In, length, trim_space, trim_left, is_space, if◌then◌else◌, has_prefix,
}
use sonarr.Parser.Types.{standard}
use sonarr.Parser.Patterns.{Find, re_standard, group, atoi, read_digits}
use sonarr.Parser.Title.{parse_title, spaced, has_double, halve_doubles, collapse, clean_title}
use sonarr.Parser.Title.Cleaning.{clean_title-IsClean}
use sonarr.Parser.Title.Formats.{IsShaped, parse_title-IsShaped, parse_title-range}
use sonarr.Organizer.{
  EpisodeInfo, default_episode_format, replace_all, two_digits, clean_filename, substitute,
  build_filename,
}
use sonarr.Organizer.Names.{IsPermitted, build_filename-IsLegal}
use sonarr.Library.{saved}
use sonarr.Importer.{Files, Moves, put_file, move_file, Answers, World}
use sonarr.Importer.Moving.{IsMoved, move_file-IsMoved}
use sonarr.Importer.Folder.{process_folder}
use sonarr.Importer.Folder.Records.{AllRecorded, process_folder-AllRecorded}

clean_sample : clean_title (codes ".The..Show_US. ") ≡ codes "The Show US"
unfolding clean_title spaced collapse has_double halve_doubles trim_space trim_left is_space
clean_sample = refl

clean_title-IsClean_example :
    (has_double (clean_title (codes "a..b__c")) ≡ false)
    × All (λ c. c ≢ b'.') (clean_title (codes "a..b__c"))
    × All (λ c. c ≢ b'_') (clean_title (codes "a..b__c"))
    × ((more : ℕ)
        → length (trim_space (spaced b'_' (spaced b'.' (codes "a..b__c")))) ≤ more
        → collapse more (trim_space (spaced b'_' (spaced b'.' (codes "a..b__c"))))
          ≡ clean_title (codes "a..b__c"))
clean_title-IsClean_example = clean_title-IsClean (codes "a..b__c")

-- Every title is taken for a range of episodes.
abbrev range_groups : List Text
range_groups = codes "x" ∷ codes "Show" ∷ codes "01" ∷ codes "03" ∷ codes "05" ∷ []

abbrev find_range : Find
find_range pattern title = if text_eq pattern re_standard then some range_groups else none

title : Text
title = codes "Show.S01E03-E05"

parse_title-IsShaped_example : IsShaped find_range title (parse_title find_range title)
parse_title-IsShaped_example = parse_title-IsShaped find_range title

found : find_range re_standard title ≡ some range_groups
unfolding re_standard text_eq
found = refl

third : atoi (group 3 range_groups) ≡ some 3
unfolding atoi read_digits group
third = refl

fifth : atoi (group 4 range_groups) ≡ some 5
unfolding atoi read_digits group
fifth = refl

parse_title-range_example :
    ((parse_title find_range title).series_type ≡ standard)
    × ((e : ℕ) → In e (parse_title find_range title).episode_numbers ↔ ((3 ≤ e) × (e ≤ 5)))
parse_title-range_example =
    parse_title-range find_range title range_groups 3 5 found third fifth (omega arith)
      (omega arith)

abbrev named : EpisodeInfo
named = record {
  series_title = codes "Law/Order: X";
  season_number = 1;
  episode_number = 12;
  episode_title = codes "Who?";
  quality_name = codes "WEBDL-1080p";
  release_group = [];
  air_date = [];
}

name_sample :
    build_filename default_episode_format named ≡ codes "LawOrder X - S01E12 - Who [WEBDL-1080p]"
unfolding build_filename default_episode_format substitute replace_all two_digits has_prefix
    clean_filename trim_space trim_left is_space
name_sample = refl

build_filename-IsLegal_example : All IsPermitted (build_filename default_episode_format named)
build_filename-IsLegal_example = build_filename-IsLegal default_episode_format named

-- A copy across devices that fails on its way.
abbrev interrupted : Moves
interrupted = record {
  made_dir = true;
  linked = false;
  opened = true;
  created = true;
  copied = false;
  written = codes "ab";
  closed = true;
  removed = true;
  renamed = true;
}

abbrev disk : Files
disk = put_file (codes "/dl/a.mkv") (some (codes "abc")) (λ _. none)

move_file-IsMoved_example :
    IsMoved
      (codes "/tv/a.mkv")
      (codes "abc")
      disk
      (move_file interrupted (codes "/dl/a.mkv") (codes "/tv/a.mkv") disk)
unfolding put_file text_eq
move_file-IsMoved_example =
    move_file-IsMoved interrupted (codes "/dl/a.mkv") (codes "/tv/a.mkv") (codes "abc") disk refl

abbrev answers : Answers
answers = record {
  size = some (pos 50_000_000);
  moves = record interrupted { linked = true };
  creates = saved;
  updates = saved;
  recorded = true;
}

abbrev library_before : World
library_before = record {
  files = disk;
  rows = [];
  next_file_id = 1;
  episodes =
      record {
        id = 70;
        series_id = 7;
        season_number = 1;
        episode_number = 3;
        title = codes "Third";
        air_date_utc = none;
        monitored = true;
        episode_file_id = none;
      }
      ∷ [];
  history = [];
}

process_folder-AllRecorded_example :
    AllRecorded
      (process_folder
        (λ a b. a ++ codes "/" ++ b)
        find_range
        (λ _. answers)
        (codes "/dl")
        (codes "d1")
        (some (record { name = codes "a.mkv"; is_dir = false } ∷ []))
        (some (record {
          id = 7;
          tvdb_id = 1;
          title = codes "Show";
          slug = codes "show";
          path = codes "/tv";
        }))
        true
        library_before).0
process_folder-AllRecorded_example =
    process_folder-AllRecorded (λ a b. a ++ codes "/" ++ b) find_range (λ _. answers) (codes "/dl")
      (codes "d1") (some (record { name = codes "a.mkv"; is_dir = false } ∷ []))
      (some (record {
        id = 7;
        tvdb_id = 1;
        title = codes "Show";
        slug = codes "show";
        path = codes "/tv";
      }))
      true library_before (tt, tt)
