-- ===== src/Client/Dummy.antt =====
-- pkg/client/dummy.go: a client that only logs. Sends and transfers succeed without a request, and
-- every retrieval reports `ErrNotFound`.
use data_telemetry.Errors.{not_found}
use data_telemetry.Action.{pure, raise}
use data_telemetry.Client.{Client}

unfoldable pub dummy : (W : Type 0) → Client W
dummy W = record {
  send_event = λ alg event manifest bottle get. pure tt;
  send_manifest = λ alg manifest bottle get. pure tt;
  send_bottle = λ alg bottle get. pure tt;
  send_signature = λ alg signature get. pure tt;
  put_event = λ alg event. pure tt;
  put_manifest = λ alg manifest. pure tt;
  put_bottle = λ alg bottle. pure tt;
  put_signature = λ alg signature. pure tt;
  put_blob = λ alg blob. pure tt;
  list_blobs = λ since limit. raise not_found;
  list_bottles = λ since limit. raise not_found;
  list_manifests = λ since limit. raise not_found;
  list_events = λ since limit. raise not_found;
  get_blob = λ dgst. raise not_found;
  get_bottle = λ dgst. raise not_found;
  get_manifest = λ dgst. raise not_found;
  get_event = λ dgst. raise not_found;
  upload = λ file skip_invalid. pure tt;
  upload_all = λ path skip_invalid. pure tt;
  download = λ since from_latest batch_size file. pure tt;
  download_all = λ since from_latest batch_size path. pure tt;
  get_locations = λ dgst. raise not_found;
  bottle_search = λ selectors description limit digest_only. raise not_found;
  get_bottles_from_metric = λ selectors metric limit desc. raise not_found;
}
