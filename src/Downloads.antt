-- ===== src/Downloads.antt =====
-- internal/commands/handlers/refresh_downloads.go: the command that looks for completed downloads and
-- enqueues their import. The download clients, the history and the ends of the queue's calls are given;
-- `encode` is the JSON of the command's body. FindDuplicate and Enqueue are separate calls in the source;
-- no call of another worker is modelled between them.
pub mod Enqueuing
use sonarr.Common.{
  ℕ, leb, Bool, true, false, not, ◌&&◌, List, [], ◌∷◌, ◌++◌, Option, none, some, Text, codes,
  text_eq, length, if◌then◌else◌,
}
use sonarr.Providers.{DownloadClient}
use sonarr.Commands.Command.{Command, scheduled, priority_normal}
use sonarr.Commands.Queue.{Table, Commit, enqueue, find_duplicate}

-- downloadclient.Item.
pub record Item : Type 0 where
  pub download_id : Text
  pub title : Text
  pub status : Text
  pub total_size : ℕ
  pub remaining : ℕ
  pub output_path : Text

-- What the calls of a run answer, by the implementation, the client and the download. `entries` are the
-- series of a download's entries in the history.
pub record Answers : Type 0 where
  pub now : ℕ
  pub instances : Option (List DownloadClient)
  pub known : Text → Bool
  pub settings_read : DownloadClient → Bool
  pub items : DownloadClient → Option (List Item)
  pub entries : Text → Option (List ℕ)
  pub finds : Text → Bool
  pub enqueues : Text → Commit
  pub encode : Text → ℕ → Text → Text

unfoldable pub dedup_key_of : Item → Text
dedup_key_of item = codes "ProcessDownload:" ++ item.download_id

unless_found : Answers → ℕ → Item → Option Command → Table → Table
unfolding dedup_key_of
unless_found env series_id item (some cmd) t = t
unless_found env series_id item none t =
    (enqueue (env.enqueues (dedup_key_of item)) (codes "ProcessDownload")
      (env.encode item.output_path series_id item.download_id) priority_normal scheduled
      (dedup_key_of item) env.now t).0

with_series : Answers → ℕ → Item → Table → Table
unfolding unless_found
with_series env series_id item t =
    if env.finds (dedup_key_of item)
    then unless_found env series_id item (find_duplicate (dedup_key_of item) t) t
    else t

with_entries : Answers → Item → Option (List ℕ) → Table → Table
unfolding with_series
with_entries env item none t = t
with_entries env item (some []) t = t
with_entries env item (some (series_id ∷ rest)) t = with_series env series_id item t

-- The body of the loop over the items.
unfoldable pub handle_item : Answers → Item → Table → Table
unfolding with_entries
handle_item env item t =
    if not (text_eq item.status (codes "completed"))
    then t
    else with_entries env item (env.entries item.download_id) t

unfoldable pub handle_items : Answers → List Item → Table → Table
unfolding handle_item
handle_items env [] t = t
handle_items env (item ∷ items) t = handle_items env items (handle_item env item t)

-- The items of a client that is enabled, known and can be asked.
unfoldable pub items_of : Answers → DownloadClient → List Item
items_of env inst =
    if not inst.enable
    then []
    else if not (env.known inst.implementation)
    then []
    else if leb 1 (length inst.settings) && not (env.settings_read inst)
    then []
    else elim (env.items inst) [ none ↦ [] | some items ↦ items ]

unfoldable pub handle_instances : Answers → List DownloadClient → Table → Table
unfolding handle_items items_of
handle_instances env [] t = t
handle_instances env (inst ∷ insts) t =
    handle_instances env insts (handle_items env (items_of env inst) t)

-- Handle: whether it returns nil, and the table.
handle_listed : Answers → Option (List DownloadClient) → Table → Bool × Table
unfolding handle_instances
handle_listed env none t = (false, t)
handle_listed env (some insts) t = (true, handle_instances env insts t)

unfoldable pub handle : Answers → Table → Bool × Table
unfolding handle_listed
handle env t = handle_listed env env.instances t
