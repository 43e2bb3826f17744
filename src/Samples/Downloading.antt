-- ===== src/Samples/Downloading.antt =====
-- A refresh of the downloads at concrete inputs.
use sonarr.Common.{
  codes, text_eq, true, false, [], ◌∷◌, some, ◌≡◌, ◌≤◌, In, refl, inl, arith, length, pos,
}
use sonarr.Providers.{DownloadClient}
use sonarr.Commands.Queue.{Table, committed, enqueue, new_row, find_duplicate}
use sonarr.Commands.Queue.Counting.{active_count}
use sonarr.Downloads.{
  Item, Answers, dedup_key_of, handle_item, handle_items, items_of, handle_instances, handle,
}
use sonarr.Downloads.Enqueuing.{active, IsReady, handle-exactly_one}

abbrev done : Item
done = record {
  download_id = codes "a1";
  title = codes "Show.S01E01";
  status = codes "completed";
  total_size = 100;
  remaining = 0;
  output_path = codes "/dl/show";
}

abbrev sabnzbd : DownloadClient
sabnzbd = record {
  id = 1;
  name = codes "SABnzbd";
  implementation = codes "SABnzbd";
  settings = [];
  enable = true;
  priority = pos 1;
  remove_completed_downloads = false;
  remove_failed_downloads = false;
  added = 0;
}

abbrev env : Answers
env = record {
  now = 500;
  instances = some (sabnzbd ∷ []);
  known = λ _. true;
  settings_read = λ _. true;
  items = λ _. some (done ∷ []);
  entries = λ _. some (7 ∷ []);
  finds = λ _. true;
  enqueues = λ _. committed;
  encode = λ path series_id id. path;
}

abbrev idle : Table
idle = record { rows = []; next_id = 1 }

-- A second refresh finds the command of the first.
twice_sample : length (handle env (handle env idle).1).1.rows ≡ 1
unfolding handle handle_instances items_of handle_items handle_item dedup_key_of enqueue new_row
    find_duplicate text_eq
twice_sample = refl

ready : IsReady env done
unfolding text_eq
ready = record {
  completed = refl;
  series_id = 7;
  others = [];
  grabbed = refl;
  found = refl;
  enqueued = λ e. cc;
}

here : In done (items_of env sabnzbd)
unfolding items_of
here = inl refl

few : active (dedup_key_of done) idle ≤ 1
unfolding active_count
few = omega arith

handle-exactly_one_example : active (dedup_key_of done) (handle env idle).1 ≡ 1
handle-exactly_one_example =
    handle-exactly_one env done ready sabnzbd (sabnzbd ∷ []) idle refl (inl refl) here few
