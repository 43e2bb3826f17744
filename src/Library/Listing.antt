-- ===== src/Library/Listing.antt =====
-- Which episodes the listing of a series holds.
use sonarr.Common.{ℕ, ==_iff, List, ◌≡◌, In, select-In, In-select}
use sonarr.Common.Sort.{slice_stable-In, In-slice_stable}
use sonarr.Library.{Episode, list_for_series}

pub list_for_series-In :
    (series_id : ℕ) (ep : Episode) (episodes : List Episode)
    → In ep (list_for_series series_id episodes)
    → In ep episodes × (ep.series_id ≡ series_id)
unfolding list_for_series
list_for_series-In series_id ep episodes m =
    let (n, e) = select-In _ ep episodes (slice_stable-In _ ep _ m) in
    (n, (==_iff ep.series_id series_id).0 e)

pub In-list_for_series :
    (series_id : ℕ) (ep : Episode) (episodes : List Episode)
    → In ep episodes
    → ep.series_id ≡ series_id
    → In ep (list_for_series series_id episodes)
unfolding list_for_series
In-list_for_series series_id ep episodes m e =
    In-slice_stable _ ep _ (In-select _ ep episodes ((==_iff ep.series_id series_id).1 e) m)
