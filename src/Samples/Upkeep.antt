-- ===== src/Samples/Upkeep.antt =====
-- Housekeeping, automatic tags and scene titles at concrete inputs.
use sonarr.Common.{
  ℕ, List, ltb, if◌then◌else◌, Text, codes, text_eq, Bool, true, false, [], ◌∷◌, ◌++◌, Option, none,
  some, ◌≡◌, ◌↔◌, refl, inl, inr, pos, ap, sym, ◌∙◌, arith, In, lower, is_upper, trim_space,
  trim_left, is_space,
}
use sonarr.Library.{saved}
use sonarr.Housekeeping.{
  EpisodeFileInfo, World, Answers, run, retention_of, trim_history, clean_orphan_episode_files,
  recalculate_statistics, vacuum_database,
}
use sonarr.Housekeeping.Orphans.{has_orphan, run-orphans}
use sonarr.SceneMapping.{normalize, normalize_loop, trim_last, is_alphanumeric, is_capital, small}
use sonarr.AutoTag.Tags.{count, IsAdded, remove_tags-apply_tags}
use sonarr.AutoTag.{
  Rule, SeriesAttr, match_spec, matches, apply_tags, remove_tags, implementation_of, parse_int,
}

abbrev kept : EpisodeFileInfo
kept = record { id = 1; series_id = 7; relative_path = codes "a" }

abbrev lost : EpisodeFileInfo
lost = record { id = 2; series_id = 7; relative_path = codes "b" }

abbrev world : World
world = record {
  history = 5 ∷ 8000000 ∷ [];
  files = kept ∷ lost ∷ [];
  recomputed = [];
  vacuumed = false;
}

abbrev env : Answers
env = record {
  now = 8000000;
  trims = true;
  series = some (record { id = 7; path = codes "/tv" } ∷ []);
  series_again = none;
  lists = λ _. true;
  join = λ dir name. dir ++ b'/' ∷ name;
  missing = text_eq (codes "/tv/b");
  deletes = λ _. saved;
  recomputes = λ _. true;
  vacuums = true;
}

run_sample :
    run env (pos 0) world
    ≡ record { history = 8000000 ∷ []; files = kept ∷ []; recomputed = []; vacuumed = true }
unfolding run retention_of trim_history clean_orphan_episode_files recalculate_statistics
    vacuum_database text_eq
run_sample = refl

abbrev id_of : EpisodeFileInfo → ℕ
id_of f = f.id

distinct : kept.id ≡ lost.id → ⊥
distinct e = omega arith

unique : (f g : EpisodeFileInfo) → In f world.files → In g world.files → f.id ≡ g.id → f ≡ g
unique f g (inl a) (inl b) e = cc
unique f g (inr (inl a)) (inr (inl b)) e = cc
unique f g (inl a) (inr (inl b)) e = absurd (distinct (sym (ap id_of a) ∙ e ∙ ap id_of b))
unique f g (inr (inl a)) (inl b) e = absurd (distinct (sym (ap id_of b) ∙ sym e ∙ ap id_of a))
unique f g (inl a) (inr (inr m)) e = absurd m
unique f g (inr (inl a)) (inr (inr m)) e = absurd m
unique f g (inr (inr m)) n e = absurd m

run-orphans_example :
    In lost (run env (pos 0) world).files
    ↔ (In lost world.files × (has_orphan env env.series lost ≡ false))
run-orphans_example = run-orphans env (pos 0) world lost unique

-- Comedies of the years from 2020 to 2024.
abbrev rule : Rule
rule = record {
  id = 1;
  name = codes "recent";
  remove_tags_automatically = true;
  tags = 4 ∷ 9 ∷ [];
  specifications =
      record {
        name = codes "years";
        implementation = codes "YearSpecification";
        negate = false;
        required = true;
        value = codes "2020-2024";
      }
      ∷ record {
        name = codes "genre";
        implementation = codes "GenreSpecification";
        negate = false;
        required = false;
        value = codes "comedy";
      }
      ∷ [];
}

abbrev show : SeriesAttr
show = record {
  title = codes "Show";
  genres = codes "Drama" ∷ codes "Comedy" ∷ [];
  status = codes "ended";
  series_type = codes "standard";
  network = codes "NBC";
  year = 2022;
  original_lang = codes "English";
  root_folder_path = codes "/tv";
}

abbrev no_regexp : Text → Option (Text → Bool)
no_regexp pattern = none

matches_sample : matches no_regexp rule show ≡ true
unfolding matches match_spec implementation_of parse_int text_eq trim_space trim_left is_space lower
    is_upper
matches_sample = refl

tags_sample : remove_tags (apply_tags (3 ∷ 4 ∷ []) rule) rule ≡ 3 ∷ []
unfolding remove_tags apply_tags
tags_sample = refl

remove_tags-apply_tags_example :
    ((added : List ℕ) × (apply_tags (4 ∷ 7 ∷ 7 ∷ []) rule ≡ (4 ∷ 7 ∷ 7 ∷ []) ++ added)
      × IsAdded (4 ∷ 7 ∷ 7 ∷ []) rule.tags added)
    × ((u : ℕ)
        → count u (remove_tags (apply_tags (4 ∷ 7 ∷ 7 ∷ []) rule) rule)
          ≡ (if ltb 0 (count u rule.tags) then 0 else count u (4 ∷ 7 ∷ 7 ∷ [])))
remove_tags-apply_tags_example = remove_tags-apply_tags (4 ∷ 7 ∷ 7 ∷ []) rule

normalize_sample : normalize (codes "  Dr. WHO -- (2005)!") ≡ codes "dr who 2005"
unfolding normalize normalize_loop trim_last is_alphanumeric is_capital small
normalize_sample = refl
