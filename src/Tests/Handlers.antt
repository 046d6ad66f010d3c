-- ===== src/Tests/Handlers.antt =====
-- Examples for internal/api/handlers.go, on a small digest package and an in-memory database.
use data_telemetry.Prelude.{
  ℕ, ◌≡◌, ◌⊎◌, refl, sym, String, some, none, false, List, [], ◌∷◌, eq_iff, length, take,
}
use data_telemetry.Errors.{Bytes, ok}
use data_telemetry.Action.Ensures.{Post}
use data_telemetry.Db.Models.{Data, Tables}
use data_telemetry.Db.Gorm.{bases}
use data_telemetry.Db.Processors.{Processor}
use data_telemetry.Tests.Memory.{digester, gorm, gorm-IsDocumented}
use data_telemetry.Api.{
  canonical_digest, Config, Request, Server, generic_put_data, generic_get_data, preload_data,
}
use data_telemetry.Types.Listing.{after}
use data_telemetry.Api.Listing.{limited, order_by_time, has_digests, list_entry}
use data_telemetry.Api.Listing.Served.{served}
use data_telemetry.Types.{ListResultEntry}
use data_telemetry.Api.Integrity.{IsIntact, IsDigester, NoCollision}
use data_telemetry.Api.Integrity.Puts.{LeavesData, generic_put_data-IsIntact}
use data_telemetry.Api.Integrity.Gets.{IsAnswer, generic_get_data-Hashes}

abbrev pub config : Config
config = record {
  digester = digester;
  canonical = "sha256";
  gorm = gorm;
  parse_time = λ s. ok 3;
  atoi = λ s. ok (some 10);
  write = λ r x. (length x, ok tt);
  write_json = λ entries r. (ok tt, record r { content_type = "application/json" });
}

config-IsDigester : IsDigester config
config-IsDigester = record {
  algorithm-from_bytes = λ alg x h. sym ((eq_iff alg "sha256").0 h);
  canonical_available = refl;
}

abbrev blobs_processor : Processor
blobs_processor = record {
  primary_table = "blobs";
  version = 1;
  process = λ b. gorm.save_blob (record { base = b });
}

blobs_processor-LeavesData : LeavesData blobs_processor
blobs_processor-LeavesData = record { same_data = λ b t. refl; same_digests = λ b t. refl }

abbrev empty_data : Data
empty_data = record { id = 1; raw_data = []; canonical_digest = "sha256:" }

-- One empty blob is stored.
abbrev one_blob : Tables
one_blob = record {
  data_rows = empty_data ∷ [];
  digests = record { id = 1; data_id = 1; digest = "sha256:" } ∷ [];
  blobs =
      record {
        base = record {
          id = 1;
          created_at = 5;
          processor_version = 1;
          content = empty_data;
          data_id = 1;
        };
      }
      ∷ [];
  bottles = [];
  manifests = [];
  events = [];
  signatures = [];
}

abbrev pub server : Server
server = record {
  tables = one_blob;
  response = record {
    content_digests = [];
    statuses = [];
    content_type = "";
    creation_date = none;
    caching = false;
    body = [];
  };
}

abbrev request : String → String → Bytes → Request
request method digest body = record {
  method = method;
  digest = digest;
  digest_alg = "";
  since = "";
  limit = "";
  body = ok body;
}

one_blob-IsIntact : IsIntact config one_blob
one_blob-IsIntact = record {
  keyed = (refl, tt);
  canonical = (refl, tt);
  aliases = ((empty_data, refl, refl), tt);
}

one_blob-NoCollision : (content : Bytes) → NoCollision config content one_blob
one_blob-NoCollision [] = (λ e. refl, tt)
one_blob-NoCollision (x ∷ xs) = (λ e. cc, tt)

generic_put_data-IsIntact_example :
    IsIntact config
      (generic_put_data config blobs_processor (request "PUT" "sha256:1" (7 ∷ [])) server).1.tables
generic_put_data-IsIntact_example =
    generic_put_data-IsIntact config blobs_processor blobs_processor-LeavesData gorm-IsDocumented
      config-IsDigester (request "PUT" "sha256:1" (7 ∷ [])) server one_blob-IsIntact
      (λ content e. one_blob-NoCollision content)

generic_get_data-Hashes_example :
    Post
      (λ u w'. (x : Bytes) × IsAnswer config (request "GET" "sha256:" []) server w' x x)
      (λ w'.
        (w'.response ≡ server.response)
        ⊎ ((x : Bytes) × (n : ℕ) × IsAnswer config
              (request "GET" "sha256:" [])
              server
              w'
              x
              (take n x)))
      (generic_get_data config "blobs" "application/octet-stream"
        (request "GET" "sha256:" [])
        server)
generic_get_data-Hashes_example =
    generic_get_data-Hashes config gorm-IsDocumented (λ r x e. refl) "blobs"
      "application/octet-stream" (request "GET" "sha256:" []) server refl refl one_blob-IsIntact

abbrev page : List ListResultEntry
page = limited (some 10) (after 3 (served config one_blob "blobs"))

listed : page ≡ record { created_at = 5; digests = "sha256:" ∷ []; content = [] } ∷ []
unfolding served limited order_by_time bases has_digests list_entry preload_data
listed = refl
