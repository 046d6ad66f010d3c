-- ===== src/Client/Multi.antt =====
-- pkg/client/multi.go: a client over several clients. Sends, puts and transfers go to all of them in
-- parallel, in the order `schedule` of their goroutines; retrievals ask one after the other.
pub mod Errors
use data_telemetry.Prelude.{ℕ, Option, none, some, List, [], ◌∷◌, map}
use data_telemetry.Errors.{Result, ok, Status, join}
use data_telemetry.Action.{Action}
use data_telemetry.Client.{Client}
use data_telemetry.Client.Utils.{parallel_map, generic_get}

-- A slot that was never written is a nil error.
abbrev pub slot : Option Status → Status
slot none = ok tt
slot (some r) = r

module _ {W : Type 0} where
  -- `errs := parallelMap(mc.clients, f); return errors.Join(errs...)`
  unfoldable pub join_all :
      (Client W → Action W (Unit {0})) → List (Client W) → List ℕ → Action W (Unit {0})
  join_all f clients schedule w =
      let (errs, w') = parallel_map (λ client i. f client) clients schedule w in
      (join (map slot errs), w')

  unfoldable pub multi : List (Client W) → List ℕ → Client W
  unfolding join_all
  multi clients schedule = record {
    send_event = λ alg event manifest bottle get.
        join_all (λ c. c.send_event alg event manifest bottle get) clients schedule;
    send_manifest = λ alg manifest bottle get.
        join_all (λ c. c.send_manifest alg manifest bottle get) clients schedule;
    send_bottle = λ alg bottle get. join_all (λ c. c.send_bottle alg bottle get) clients schedule;
    send_signature =
        λ alg signature get. join_all (λ c. c.send_signature alg signature get) clients schedule;
    put_event = λ alg event. join_all (λ c. c.put_event alg event) clients schedule;
    put_manifest = λ alg manifest. join_all (λ c. c.put_manifest alg manifest) clients schedule;
    put_bottle = λ alg bottle. join_all (λ c. c.put_bottle alg bottle) clients schedule;
    put_signature = λ alg signature. join_all (λ c. c.put_signature alg signature) clients schedule;
    put_blob = λ alg blob. join_all (λ c. c.put_blob alg blob) clients schedule;
    list_blobs = λ since limit. generic_get clients (λ c. c.list_blobs since limit);
    list_bottles = λ since limit. generic_get clients (λ c. c.list_bottles since limit);
    list_manifests = λ since limit. generic_get clients (λ c. c.list_manifests since limit);
    list_events = λ since limit. generic_get clients (λ c. c.list_events since limit);
    get_blob = λ dgst. generic_get clients (λ c. c.get_blob dgst);
    get_bottle = λ dgst. generic_get clients (λ c. c.get_bottle dgst);
    get_manifest = λ dgst. generic_get clients (λ c. c.get_manifest dgst);
    get_event = λ dgst. generic_get clients (λ c. c.get_event dgst);
    upload = λ file skip_invalid. join_all (λ c. c.upload file skip_invalid) clients schedule;
    upload_all =
        λ path skip_invalid. join_all (λ c. c.upload_all path skip_invalid) clients schedule;
    download = λ since from_latest batch_size file.
        join_all (λ c. c.download since from_latest batch_size file) clients schedule;
    download_all = λ since from_latest batch_size path.
        join_all (λ c. c.download_all since from_latest batch_size path) clients schedule;
    get_locations = λ dgst. generic_get clients (λ c. c.get_locations dgst);
    bottle_search = λ selectors description limit digest_only.
        generic_get clients (λ c. c.bottle_search selectors description limit digest_only);
    get_bottles_from_metric = λ selectors metric limit desc.
        generic_get clients (λ c. c.get_bottles_from_metric selectors metric limit desc);
  }
