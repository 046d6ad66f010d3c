-- ===== src/Tests/Downloads.antt =====
-- An example for the paging loop of `Download`: a server of two objects, one a page. The world is the
-- list of the records of the index file.
use data_telemetry.Prelude.{
  ℕ, ◌≡◌, refl, String, ◌<>◌, true, some, List, [], ◌∷◌, ◌++◌, take, arith, map,
}
use data_telemetry.Errors.{Bytes, Result, ok, fail, message}
use data_telemetry.Action.{pure}
use data_telemetry.Action.Returns.{Returns}
use data_telemetry.Types.{ListResultEntry}
use data_telemetry.Types.Listing.{after}
use data_telemetry.Client.Requests.{Url, Http, do_list_request}
use data_telemetry.Client.Transfer.{Files, download_loop}
use data_telemetry.Client.Transfer.Contract.{Serves, index_row}
use data_telemetry.Client.Transfer.Complete.{download_loop_complete}
use data_telemetry.Tests.Unary.{unary, characters, characters-unary}

abbrev Written : Type 0
Written = List (List String)

abbrev objects : List ListResultEntry
objects =
    record { created_at = 1; digests = "sha256:a" ∷ []; content = 7 ∷ [] }
    ∷ record { created_at = 2; digests = "sha256:b" ∷ "sha512:b" ∷ []; content = 8 ∷ [] }
    ∷ []

abbrev page : Bytes → Result (List ListResultEntry)
page (since ∷ limit ∷ []) = ok (take limit (after since objects))
page other = fail (message "bad page")

-- The body of an answer is the two numbers of the query.
abbrev numbers : List (String × String) → Bytes
numbers [] = []
numbers ((key, text) ∷ query) = characters text ∷ numbers query

abbrev http : Http Written
http = record {
  round_trip = λ req w. (
    ok (record {
      status = 200;
      content_digest = "";
      content_type = "";
      body = ok (numbers req.query);
      close = ok tt;
    }),
    w,
  );
  digester = record {
    parse = λ s. some s;
    algorithm = λ d. "sha256";
    encoded = λ d. d;
    available = λ alg. true;
    from_bytes = λ alg x. "sha256:a";
  };
  decode_missing = λ b. fail (message "not a problem");
  decode_list = page;
  decode_locations = λ b. ok [];
  decode_search = λ b. ok [];
  format_time = unary;
  format_int = unary;
  media_type_bottle_config = "bottle";
  media_type_image_manifest = "manifest";
  media_type_problem = "problem";
}

abbrev files : Files Written
files = record {
  mkdir_all = λ path. pure tt;
  open_append = λ path. pure tt;
  read_file = λ path. pure [];
  write_file = λ path content. pure tt;
  write_record = λ path record' w. (ok tt, w ++ (record' ∷ []));
  flush = λ path w. w;
  open_csv = λ path. pure [];
  close_csv = λ path. pure tt;
  dir = λ path. path;
  base = λ path. path;
  join_path = λ a b. a <> "/" <> b;
  format_time = λ t. t ∷ [];
  parse_time = λ b. fail (message "no time");
}

abbrev url : Url
url = record { host = "localhost"; path = "/api" }

listed :
    (since limit : ℕ) (w : Written)
    → Returns
        (do_list_request http url "blob" since limit "token")
        w
        (take limit (after since objects))
        (λ w'. (objects ≡ objects) × (w' ≡ w))
unfolding do_list_request
listed since limit w = record {
  value = rw (characters-unary since, characters-unary limit) refl;
  after = (refl, refl);
}

serves : Serves http files url "blob" "token" "index.csv"
serves = record {
  served = λ w. objects;
  written = λ w. w;
  listed = listed;
  file_written = λ path content w. record { value = refl; after = (refl, refl) };
  record_written = λ record' w. record { value = refl; after = (refl, refl) };
  flushed = λ w. (refl, refl);
}

-- Two full pages, and the empty one that ends the loop.
download_loop_complete_example :
    Returns
      (download_loop http files 3 url "blob" 0 1 "dir" "index.csv" "token")
      []
      2
      (λ w'. (objects ≡ objects) × (w' ≡ map (index_row http files) objects))
unfolding serves
download_loop_complete_example =
    download_loop_complete http files url "blob" "token" "dir" "index.csv" serves 3 1 0 objects []
      [] (omega arith, tt) (("sha256:a", [], refl), (("sha256:b", "sha512:b" ∷ [], refl), tt))
      (omega arith) (omega arith) (refl, refl)
