-- ===== src/Downloads/Enqueuing.antt =====
-- Each completed download that was grabbed has one import under way.
use sonarr.Common.{
  ℕ, ◌≤◌, ◌<◌, true, List, [], ◌∷◌, Option, none, some, Text, codes, text_eq, ◌≡◌, ◌≢◌, refl, subst,
  arith, In, Option-cases, Bool-cases, inl, inr, find,
}
use sonarr.Providers.{DownloadClient}
use sonarr.Commands.Queue.{Table, rolled_back, find_duplicate}
use sonarr.Commands.Queue.Counting.{
  has_key, active_count, find-some, AddsFirst, enqueue_count, enqueue_active,
}
use sonarr.Downloads.{
  Item, Answers, dedup_key_of, unless_found, with_series, with_entries, handle_item, handle_items,
  items_of, handle_instances, handle_listed, handle,
}

abbrev pub active : Text → Table → ℕ
active key t = active_count key t.rows

-- The download is completed and was grabbed, and the queue's calls for it succeed.
pub record IsReady (env : Answers) (item : Item) : Type 0 where
  pub completed : text_eq item.status (codes "completed") ≡ true
  pub series_id : ℕ
  pub others : List ℕ
  pub grabbed : env.entries item.download_id ≡ some (series_id ∷ others)
  pub found : env.finds (dedup_key_of item) ≡ true
  pub enqueued : env.enqueues (dedup_key_of item) ≢ rolled_back

module _ (env : Answers) (key : Text) where
  with_series_count :
      (series_id : ℕ) (item : Item) (t : Table)
      → AddsFirst
          (dedup_key_of item)
          key
          (active key t)
          (active key (with_series env series_id item t))
  unfolding with_series
  with_series_count series_id item t = elim (Bool-cases (env.finds (dedup_key_of item))) [
    | inr off ↦ simp off (inl refl)
    | inl on ↦ simp on (elim (Option-cases (find_duplicate (dedup_key_of item) t)) [
      | inl e ↦
          rw (e, unless_found)
            (enqueue_count (env.enqueues (dedup_key_of item)) (codes "ProcessDownload") _
              (dedup_key_of item) key t env.now e)
      | inr (c, e) ↦ rw (e, unless_found) (inl refl)
    ])
  ]

  with_entries_count :
      (item : Item) (o : Option (List ℕ)) (t : Table)
      → AddsFirst (dedup_key_of item) key (active key t) (active key (with_entries env item o t))
  unfolding with_entries
  with_entries_count item none t = inl refl
  with_entries_count item (some []) t = inl refl
  with_entries_count item (some (s ∷ rest)) t = with_series_count s item t

  handle_item_count :
      (item : Item) (t : Table)
      → AddsFirst (dedup_key_of item) key (active key t) (active key (handle_item env item t))
  unfolding handle_item
  handle_item_count item t = elim (Bool-cases (text_eq item.status (codes "completed"))) [
    | inl e ↦ simp e (with_entries_count item (env.entries item.download_id) t)
    | inr e ↦ simp e (inl refl)
  ]

  -- The count never falls, and never rises above one.
  abbrev Grows : ℕ → ℕ → Type 0
  Grows a b = (a ≤ b) × (a ≤ 1 → b ≤ 1)

  handle_items-Grows :
      (items : List Item) (t : Table) → Grows (active key t) (active key (handle_items env items t))
  unfolding handle_items
  handle_items-Grows [] t = (omega arith, λ h. h)
  handle_items-Grows (item ∷ items) t =
      let (up, one) = handle_items-Grows items (handle_item env item t) in
      let added = handle_item_count item t in
      (omega (arith, up, added), λ h. one (omega (arith, added, h)))

  handle_instances-Grows :
      (insts : List DownloadClient) (t : Table)
      → Grows (active key t) (active key (handle_instances env insts t))
  unfolding handle_instances
  handle_instances-Grows [] t = (omega arith, λ h. h)
  handle_instances-Grows (inst ∷ insts) t =
      let (up, one) = handle_instances-Grows insts (handle_items env (items_of env inst) t) in
      let (before, first) = handle_items-Grows (items_of env inst) t in
      (omega (arith, up, before), λ h. one (first h))

  -- No command gets a second active one of its key, whatever calls fail.
  handle-at_most_one : (t : Table) → active key t ≤ 1 → active key (handle env t).1 ≤ 1
  unfolding handle
  handle-at_most_one t h = go env.instances
    where
      go : (o : Option (List DownloadClient)) → active key (handle_listed env o t).1 ≤ 1
      go none = h
      go (some insts) = (handle_instances-Grows insts t).1 h

module _ (env : Answers) (item : Item) (ready : IsReady env item) where
  handle_item-active : (t : Table) → 0 < active (dedup_key_of item) (handle_item env item t)
  unfolding handle_item with_entries with_series find_duplicate
  handle_item-active t = simp ready.completed (
      rw ready.grabbed (
        simp ready.found (elim (Option-cases (find (has_key (dedup_key_of item)) t.rows)) [
          | inl e ↦
              rw (e, unless_found)
                (enqueue_active (env.enqueues (dedup_key_of item)) (codes "ProcessDownload") _
                  (dedup_key_of item) t env.now ready.enqueued)
          | inr (c, e) ↦ rw (e, unless_found) (find-some (dedup_key_of item) t.rows c e)
        ])))

  handle_items-active :
      (items : List Item) (t : Table)
      → In item items
      → 0 < active (dedup_key_of item) (handle_items env items t)
  unfolding handle_items
  handle_items-active [] t m = absurd m
  handle_items-active (x ∷ items) t (inr m) = handle_items-active items (handle_item env x t) m
  handle_items-active (x ∷ items) t (inl e) =
      let here =
        subst (λ (y : Item). 0 < active (dedup_key_of item) (handle_item env y t)) e
          (handle_item-active t) in
      let up = (handle_items-Grows env (dedup_key_of item) items (handle_item env x t)).0 in
      omega (arith, here, up)

  handle_instances-active :
      (inst : DownloadClient) (insts : List DownloadClient) (t : Table)
      → In inst insts
      → In item (items_of env inst)
      → 0 < active (dedup_key_of item) (handle_instances env insts t)
  unfolding handle_instances
  handle_instances-active inst [] t m n = absurd m
  handle_instances-active inst (x ∷ insts) t (inr m) n =
      handle_instances-active inst insts (handle_items env (items_of env x) t) m n
  handle_instances-active inst (x ∷ insts) t (inl e) n =
      let here =
        handle_items-active (items_of env x) t
          (subst (λ (y : DownloadClient). In item (items_of env y)) e n) in
      let up =
        (handle_instances-Grows env (dedup_key_of item) insts
          (handle_items env (items_of env x) t)).0 in
      omega (arith, here, up)

  -- After a refresh a completed download of a client that can be asked, which has a grab in the history,
  -- has exactly one active import command if it had at most one before, provided that the queue's calls
  -- for it succeed.
  pub handle-exactly_one :
      (inst : DownloadClient) (insts : List DownloadClient) (t : Table)
      → env.instances ≡ some insts
      → In inst insts
      → In item (items_of env inst)
      → active (dedup_key_of item) t ≤ 1
      → active (dedup_key_of item) (handle env t).1 ≡ 1
  unfolding handle handle_listed
  handle-exactly_one inst insts t listed m n one = rw listed (
      let here = handle_instances-active inst insts t m n in
      let most = (handle_instances-Grows env (dedup_key_of item) insts t).1 one in
      omega (arith, here, most))
