-- ===== src/Client.antt =====
-- The interface `Client` of pkg/client/client.go, over the world that its calls act on.
pub mod Dummy
pub mod Utils
pub mod Requests
pub mod Transfer
pub mod Single
pub mod Multi
use data_telemetry.Prelude.{ℕ, String, Bool, List}
use data_telemetry.Errors.{Digest, Algorithm, Bytes, Result}
use data_telemetry.Action.{Action}
use data_telemetry.Types.{Time, LocationResponse, ListResultEntry, SearchResult}

abbrev pub GetArtifactData : Type 0
GetArtifactData = Digest → Result Bytes

pub record Client (W : Type 0) : Type 0 where
  pub send_event : Algorithm → Bytes → Bytes → Bytes → GetArtifactData → Action W (Unit {0})
  pub send_manifest : Algorithm → Bytes → Bytes → GetArtifactData → Action W (Unit {0})
  pub send_bottle : Algorithm → Bytes → GetArtifactData → Action W (Unit {0})
  pub send_signature : Algorithm → Bytes → GetArtifactData → Action W (Unit {0})
  pub put_event : Algorithm → Bytes → Action W (Unit {0})
  pub put_manifest : Algorithm → Bytes → Action W (Unit {0})
  pub put_bottle : Algorithm → Bytes → Action W (Unit {0})
  pub put_signature : Algorithm → Bytes → Action W (Unit {0})
  pub put_blob : Algorithm → Bytes → Action W (Unit {0})
  pub list_blobs : Time → ℕ → Action W (List ListResultEntry)
  pub list_bottles : Time → ℕ → Action W (List ListResultEntry)
  pub list_manifests : Time → ℕ → Action W (List ListResultEntry)
  pub list_events : Time → ℕ → Action W (List ListResultEntry)
  pub get_blob : Digest → Action W Bytes
  pub get_bottle : Digest → Action W Bytes
  pub get_manifest : Digest → Action W Bytes
  pub get_event : Digest → Action W Bytes
  pub upload : String → Bool → Action W (Unit {0})
  pub upload_all : String → Bool → Action W (Unit {0})
  pub download : Time → Bool → ℕ → String → Action W (Unit {0})
  pub download_all : Time → Bool → ℕ → String → Action W (Unit {0})
  pub get_locations : Digest → Action W (List LocationResponse)
  pub bottle_search : List String → String → ℕ → Bool → Action W (List SearchResult)
  pub get_bottles_from_metric : List String → String → ℕ → Bool → Action W Bytes
