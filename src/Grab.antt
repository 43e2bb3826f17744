-- ===== src/Grab.antt =====
-- internal/grab/grab.go: `Grab` sends a release to a download client and records it. The clients
-- themselves are parameters: the protocol of each registered implementation, whether settings can
-- be read into it, and what it answers to an added release.
pub mod Choice
pub mod Outcomes
use sonarr.Common.{
  ℕ, Text, text_eq, codes, ltb_ℤ, Bool, true, false, List, [], ◌∷◌, ◌++◌, Option, none, some,
  if◌then◌else◌, not, length, leb,
}
use sonarr.Providers.{Release, DownloadClient}

-- history.Entry of the type "grabbed"; the id and the date are the database's.
pub record Entry : Type 0 where
  pub episode_id : ℕ
  pub series_id : ℕ
  pub source_title : Text
  pub quality_name : Text
  pub download_id : Text

pub record ReleasesGrabbed : Type 0 where
  pub series_id : ℕ
  pub episode_ids : List ℕ
  pub title : Text
  pub download_id : Text

-- What a grab changes: the releases handed to clients, the history, the events.
pub record World : Type 0 where
  pub sent : List (DownloadClient × Text × Text)
  pub history : List Entry
  pub published : List ReleasesGrabbed

-- The returned error, or nil.
pub data Result : Type 0 where
  clients_not_listed no_client no_factory bad_settings not_added grabbed : Result

-- What the environment answers in one call.
pub record Environment : Type 0 where
  pub clients : Option (List DownloadClient)
  pub protocol_of : Text → Option Text
  pub settings_read : DownloadClient → Bool
  pub add : DownloadClient → Text → Text → Option Text
  pub recorded : ℕ → Bool

-- The body of the filter's loop.
suits : Environment → Text → DownloadClient → Bool
suits env protocol inst =
    if not inst.enable
    then false
    else elim (env.protocol_of inst.implementation) [ none ↦ false | some p ↦ text_eq p protocol ]

unfoldable pub candidates : Environment → Text → List DownloadClient → List DownloadClient
unfolding suits
candidates env protocol [] = []
candidates env protocol (inst ∷ all) =
    let rest = candidates env protocol all in if suits env protocol inst then inst ∷ rest else rest

-- The loop that keeps the first client of the lowest priority number.
unfoldable pub lowest : DownloadClient → List DownloadClient → DownloadClient
lowest best [] = best
lowest best (c ∷ cs) = lowest (if ltb_ℤ c.priority best.priority then c else best) cs

unfoldable pub choose : List DownloadClient → Option DownloadClient
unfolding lowest
choose [] = none
choose (c ∷ cs) = some (lowest c cs)

-- One history entry for each episode; a failed insert is only logged.
unfoldable pub record_history :
    (ℕ → Bool) → Release → ℕ → List ℕ → Text → Text → List Entry → List Entry
record_history recorded release series_id [] quality_name download_id history = history
record_history recorded release series_id (ep ∷ eps) quality_name download_id history =
    record_history recorded release series_id eps quality_name download_id (
      if recorded ep
      then history
        ++ record {
          episode_id = ep;
          series_id = series_id;
          source_title = release.title;
          quality_name = quality_name;
          download_id = download_id;
        }
          ∷ []
      else history)

module _ (env : Environment) (release : Release) (series_id : ℕ) (episode_ids : List ℕ)
    (quality_name : Text) where
  -- Steps 6 and 7.
  after_add : Option Text → World → World × Result
  unfolding record_history
  after_add none w = (w, not_added)
  after_add (some download_id) w = (
    record w {
      history =
          record_history env.recorded release series_id episode_ids quality_name download_id
            w.history;
      published =
          w.published
          ++ record {
            series_id = series_id;
            episode_ids = episode_ids;
            title = release.title;
            download_id = download_id;
          }
            ∷ [];
    },
    grabbed,
  )

  -- Step 5.
  send : DownloadClient → World → World × Result
  unfolding after_add
  send best w =
      after_add (env.add best release.download_url release.title)
        (record w { sent = w.sent ++ (best, release.download_url, release.title) ∷ [] })

  -- Step 4.
  overlay : Bool → DownloadClient → World → World × Result
  unfolding send
  overlay false best w = (w, bad_settings)
  overlay true best w = send best w

  instantiate : Option Text → DownloadClient → World → World × Result
  unfolding overlay
  instantiate none best w = (w, no_factory)
  instantiate (some protocol) best w =
      overlay (if leb 1 (length best.settings) then env.settings_read best else true) best w

  with_best : Option DownloadClient → World → World × Result
  unfolding instantiate
  with_best none w = (w, no_client)
  with_best (some best) w = instantiate (env.protocol_of best.implementation) best w

  with_clients : Option (List DownloadClient) → World → World × Result
  unfolding choose candidates with_best
  with_clients none w = (w, clients_not_listed)
  with_clients (some all) w = with_best (choose (candidates env release.protocol all)) w

  unfoldable pub grab : World → World × Result
  unfolding with_clients
  grab w = with_clients env.clients w
