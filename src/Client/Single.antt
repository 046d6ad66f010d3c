-- ===== src/Client/Single.antt =====
-- pkg/client/single.go: a client of one server. The `Send` methods push an object, push what the
-- server says is missing, and push the object again. `fuel` bounds the pages of a download.
pub mod Holdings
pub mod Attempts
pub mod Uploads
use data_telemetry.Prelude.{ℕ, String, Bool, Option, none, some, List, [], ◌∷◌}
use data_telemetry.Errors.{
  Digest, Algorithm, Bytes, GoError, as_missing, Result, ok, fail, Status, wrap,
}
use data_telemetry.Action.{Action, pure, lift, labelled, ◌>>=◌, ◌>>◌}
use data_telemetry.Client.{Client, GetArtifactData}
use data_telemetry.Client.Requests.{
  Url, Http, do_put_request, do_get_request, do_list_request, get_locations, bottle_search,
  get_bottles_from_metric,
}
use data_telemetry.Client.Transfer.{Files, upload, upload_all, download, download_all}

-- `errors.As(err, &missing)`
unfoldable pub missing_in : Status → Option (List Digest)
missing_in (ok u) = none
missing_in (fail e) = as_missing e

-- `errors.As(err, &missing) && len(missing.MissingDigests) == 1`
unfoldable pub sole_missing_in : Status → Option Digest
unfolding missing_in
sole_missing_in r = elim (missing_in r) [ some (d ∷ []) ↦ some d | _ ↦ none ]

module _ {W : Type 0} (h : Http W) (u : Url) (token : String) where
  abbrev pub put : String → Algorithm → Bytes → Action W (Unit {0})
  put obj_type alg content = do_put_request h u obj_type content alg token

  unfoldable pub send_artifacts : List Digest → GetArtifactData → Action W (Unit {0})
  send_artifacts [] get = pure tt
  send_artifacts (dgst ∷ dgsts) get = do
    content ← lift (wrap "failed to get artifact data" (get dgst))
    labelled "failed to push blob" (put "blob" (h.digester.algorithm dgst) content)
    send_artifacts dgsts get

  unfoldable pub send_bottle : Algorithm → Bytes → GetArtifactData → Action W (Unit {0})
  unfolding missing_in
  send_bottle alg bottle get w =
      let (r, w') = put "bottle" alg bottle w in
      elim (missing_in r) [
        | some dgsts ↦
            (send_artifacts dgsts get
                >> labelled "failed to re-push bottle" (put "bottle" alg bottle))
              w'
        | none ↦ (wrap "failed to push bottle" r, w')
      ]

  unfoldable pub send_manifest : Algorithm → Bytes → Bytes → GetArtifactData → Action W (Unit {0})
  unfolding sole_missing_in
  send_manifest alg manifest bottle get w =
      let (r, w') = put "manifest" alg manifest w in
      elim (sole_missing_in r) [
        | some dgst ↦
            (send_bottle (h.digester.algorithm dgst) bottle get
                >> labelled "failed to re-push manifest" (put "manifest" alg manifest))
              w'
        | none ↦ (wrap "failed to push manifest" r, w')
      ]

  unfoldable pub send_event :
      Algorithm → Bytes → Bytes → Bytes → GetArtifactData → Action W (Unit {0})
  unfolding sole_missing_in
  send_event alg event manifest bottle get w =
      let (r, w') = put "event" alg event w in
      elim (sole_missing_in r) [
        | some dgst ↦
            (labelled "failed to send manifest to server"
                  (send_manifest (h.digester.algorithm dgst) manifest bottle get)
                >> labelled "failed to re-push event to server" (put "event" alg event))
              w'
        | none ↦ (wrap "failed to push event to server" r, w')
      ]

  -- Nothing is sent between the two attempts.
  unfoldable pub send_signature : Algorithm → Bytes → GetArtifactData → Action W (Unit {0})
  unfolding sole_missing_in
  send_signature alg signature get w =
      let (r, w') = put "signature" alg signature w in
      elim (sole_missing_in r) [
        | some dgst ↦
            labelled "failed to re-push signature to server" (put "signature" alg signature) w'
        | none ↦ (wrap "failed to push signature to server" r, w')
      ]

  unfoldable pub single : Files W → ℕ → Client W
  unfolding send_event send_manifest send_bottle send_signature
  single fs fuel = record {
    send_event = send_event;
    send_manifest = send_manifest;
    send_bottle = send_bottle;
    send_signature = send_signature;
    put_event = put "event";
    put_manifest = put "manifest";
    put_bottle = put "bottle";
    put_signature = put "signature";
    put_blob = put "blob";
    list_blobs = λ since limit. do_list_request h u "blob" since limit token;
    list_bottles = λ since limit. do_list_request h u "bottle" since limit token;
    list_manifests = λ since limit. do_list_request h u "manifest" since limit token;
    list_events = λ since limit. do_list_request h u "event" since limit token;
    get_blob = λ dgst. do_get_request h u "blob" dgst token;
    get_bottle = λ dgst. do_get_request h u "bottle" dgst token;
    get_manifest = λ dgst. do_get_request h u "manifest" dgst token;
    get_event = λ dgst. do_get_request h u "event" dgst token;
    upload = upload h fs u token;
    upload_all = upload_all h fs u token;
    download = download h fs fuel u token;
    download_all = download_all h fs fuel u token;
    get_locations = get_locations h u;
    bottle_search = bottle_search h u;
    get_bottles_from_metric = get_bottles_from_metric h u;
  }
