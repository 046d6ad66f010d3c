-- ===== src/Client/Transfer.antt =====
-- Mirroring a server to and from a directory: `Download`, `DownloadAll`, `Upload`, `UploadAll`,
-- `processIndexFile` and `writeRecordToCsv` of pkg/client/requests.go. The file system and the csv
-- package are the parameter `Files`. The paging loop of `Download` takes fuel, a round a page.
pub mod Contract
pub mod Complete
use data_telemetry.Prelude.{
  ℕ, zero, suc, String, ◌<>◌, Bool, true, false, Option, none, some, List, [], ◌∷◌, map, ltb,
  if◌then◌else◌, length,
}
use data_telemetry.Errors.{
  Digest, Algorithm, Bytes, GoError, message, panicked, still_running, as_missing, Result, ok, fail,
}
use data_telemetry.Action.{Action, pure, raise, lift, labelled, ◌>>=◌, ◌>>◌}
use data_telemetry.Types.{Time, ListResultEntry, topological_ordering_of_types}
use mathlib.Core.List.{reverse}
use data_telemetry.Client.Requests.{Url, Http, do_put_request, do_list_request}

pub record Files (W : Type 0) : Type 0 where
  pub mkdir_all : String → Action W (Unit {0})
  -- os.OpenFile with O_APPEND and O_CREATE
  pub open_append : String → Action W (Unit {0})
  pub read_file : String → Action W Bytes
  pub write_file : String → Bytes → Action W (Unit {0})
  -- csv.Writer: `Write` buffers a record, `Flush` writes the buffer.
  pub write_record : String → List String → Action W (Unit {0})
  pub flush : String → W → W
  -- What the calls of csv.Reader's `Read` return, up to the end of the file.
  pub open_csv : String → Action W (List (Result (List String)))
  pub close_csv : String → Action W (Unit {0})
  pub dir : String → String
  pub base : String → String
  pub join_path : String → String → String
  -- RFC3339Nano
  pub format_time : Time → Bytes
  pub parse_time : Bytes → Result Time

module _ {W : Type 0} (h : Http W) (fs : Files W) where
  unfoldable pub algorithms : List Digest → List String
  algorithms = map h.digester.algorithm

  unfoldable pub filename : Digest → String
  filename dgst = h.digester.algorithm dgst <> "-" <> h.digester.encoded dgst

  -- `result.Digests[0]` panics on an entry without digests.
  unfoldable pub write_record_to_csv :
      ListResultEntry → List Digest → String → String → Action W (Unit {0})
  unfolding algorithms filename
  write_record_to_csv result [] dir file = raise (panicked "index out of range")
  write_record_to_csv result (primary ∷ rest) dir file = do
    labelled "unable to open index file for writing"
        (fs.write_file (fs.join_path dir (filename primary)) result.content)
    fs.write_record file (filename primary ∷ algorithms (primary ∷ rest))

  -- `for _, result := range results`, with the latest timestamp.
  unfoldable pub write_results : List ListResultEntry → Time → String → String → Action W Time
  unfolding write_record_to_csv
  write_results [] latest dir file = pure latest
  write_results (result ∷ results) latest dir file = do
    write_record_to_csv result result.digests dir file
    write_results results result.created_at dir file

  abbrev latest_file : String → String
  latest_file dir = fs.join_path dir "index.latest"

  unfoldable pub download_loop :
      ℕ → Url → String → Time → ℕ → String → String → String → Action W Time
  download_loop zero u obj_type latest batch_size dir file token = raise still_running
  download_loop (suc fuel) u obj_type latest batch_size dir file token = do
    results ← do_list_request h u obj_type latest batch_size token
    newest ← write_results results latest dir file
    λ w. (ok tt, fs.flush file w)
    let again =
        (labelled "unable to incrementally write the latest timestamp file"
            (fs.write_file (latest_file dir) (fs.format_time newest))
          >> download_loop fuel u obj_type newest batch_size dir file token)
    if ltb (length results) batch_size then pure newest else again

  -- Errors of `getLatestTimestamp` are logged, and `since` is kept.
  unfoldable pub starting_point : Time → Bool → String → W → Time × W
  starting_point since false latest w = (since, w)
  starting_point since true latest w =
      let (r, w') = (fs.read_file latest >>= λ b. lift (fs.parse_time b)) w in
      (elim r [ ok t ↦ t | fail e ↦ since ], w')

  unfoldable pub download : ℕ → Url → String → Time → Bool → ℕ → String → Action W (Unit {0})
  download fuel u token since from_latest batch_size file = do
    let dir = fs.dir file
    labelled "download operation failed to make directories" (fs.mkdir_all dir)
    labelled "download failed to open file for writing" (fs.open_append file)
    start ← λ w. (let (t, w') = starting_point since from_latest (latest_file dir) w in (ok t, w'))
    newest ← download_loop fuel u (fs.base dir) start batch_size dir file token
    labelled "unable to write the final latest timestamp file"
        (fs.write_file (latest_file dir) (fs.format_time newest))

  abbrev index_file : String → String → String
  index_file path obj_type = fs.join_path (fs.join_path path obj_type) "index.csv"

  abbrev each_type : (String → Action W (Unit {0})) → List String → Action W (Unit {0})
  each_type f [] = pure tt
  each_type f (t ∷ ts) = do f t; each_type f ts

  -- The types from the last to the first.
  unfoldable pub download_all : ℕ → Url → String → Time → Bool → ℕ → String → Action W (Unit {0})
  download_all fuel u token since from_latest batch_size path =
      each_type (λ t. download fuel u token since from_latest batch_size (index_file path t))
        (reverse topological_ordering_of_types)

  -- The inner loop of `processIndexFile`, over the algorithms of a record.
  unfoldable pub process_algorithms :
      (String → Digest → Bytes → Action W (Unit {0}))
      → String
      → List Algorithm
      → Action W (Unit {0})
  process_algorithms f datafile [] = pure tt
  process_algorithms f datafile (alg ∷ algs) =
      if h.digester.available alg
      then (do
        content ← labelled "unable to read file references in index" (fs.read_file datafile)
        f datafile (h.digester.from_bytes alg content) content
        process_algorithms f datafile algs)
      else raise (message ("unknown digest algorithm " <> alg))

  unfoldable pub process_records :
      (String → Digest → Bytes → Action W (Unit {0}))
      → String
      → List (Result (List String))
      → Action W (Unit {0})
  process_records f dir [] = pure tt
  process_records f dir (fail e ∷ rest) = raise e
  process_records f dir (ok (name ∷ alg ∷ algs) ∷ rest) = do
    process_algorithms f (fs.join_path dir name) (alg ∷ algs)
    process_records f dir rest
  process_records f dir (ok record' ∷ rest) = raise (message "invalid test file format")

  unfoldable pub process_index_file :
      String → (String → Digest → Bytes → Action W (Unit {0})) → Action W (Unit {0})
  process_index_file file f = do
    records ← labelled "unable to open index file" (fs.open_csv file)
    process_records f (fs.dir file) records
    fs.close_csv file

  -- With `skip_invalid` an upload whose dependencies are missing counts as done.
  unfoldable pub skip_missing : Bool → Result (Unit {0}) → Result (Unit {0})
  skip_missing skip_invalid (ok u) = ok tt
  skip_missing false (fail e) = fail e
  skip_missing true (fail e) = elim (as_missing e) [ some ds ↦ ok tt | none ↦ fail e ]

  unfoldable pub upload : Url → String → String → Bool → Action W (Unit {0})
  upload u token file skip_invalid = process_index_file file λ datafile dgst content w.
      let (r, w') =
        do_put_request h u (fs.base (fs.dir file)) content (h.digester.algorithm dgst) token w in
      (skip_missing skip_invalid r, w')

  unfoldable pub upload_all : Url → String → String → Bool → Action W (Unit {0})
  upload_all u token path skip_invalid =
      each_type (λ t. upload u token (index_file path t) skip_invalid) topological_ordering_of_types
