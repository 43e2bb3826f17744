-- ===== src/Providers.antt =====
-- internal/providers/indexer/indexer.go and internal/providers/downloadclient/store.go: the records
-- that the release pipeline passes to and takes from the providers. Times are natural numbers.
use sonarr.Common.{ℕ, Text, ℤ, Bool, List}

-- indexer.Release.
pub record Release : Type 0 where
  pub title : Text
  pub guid : Text
  pub download_url : Text
  pub info_url : Text
  pub size : ℤ
  pub publish_date : ℕ
  pub indexer : Text
  pub protocol : Text
  pub seeders : ℤ
  pub leechers : ℤ
  pub categories : List ℤ

-- indexer.Instance; `settings` is its JSON.
pub record Indexer : Type 0 where
  pub id : ℕ
  pub name : Text
  pub implementation : Text
  pub settings : Text
  pub enable_rss : Bool
  pub enable_automatic_search : Bool
  pub enable_interactive_search : Bool
  pub priority : ℤ
  pub added : ℕ

-- downloadclient.Instance.
pub record DownloadClient : Type 0 where
  pub id : ℕ
  pub name : Text
  pub implementation : Text
  pub settings : Text
  pub enable : Bool
  pub priority : ℤ
  pub remove_completed_downloads : Bool
  pub remove_failed_downloads : Bool
  pub added : ℕ
