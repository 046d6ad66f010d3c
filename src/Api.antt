-- ===== src/Api.antt =====
-- internal/api/handlers.go: the handlers that every object type shares. A handler acts on the tables
-- and on the response; the error that it returns is written by `httputil.RootHandler`, which is not
-- modelled. Logging and the JSON form of list entries are left out.
pub mod Steps
pub mod Integrity
pub mod Repeat
pub mod Routes
pub mod Linked
pub mod Listing
use data_telemetry.Prelude.{
  ℕ, String, ◌<>◌, Bool, true, false, Option, none, some, List, [], ◌∷◌, ◌++◌, map, str_eq, ltb,
  ◌==◌, if◌then◌else◌, select, any, take,
}
use data_telemetry.Errors.{
  as_http, Digest, Algorithm, Bytes, GoError, http_error, wrapped, record_not_found, Result, Status,
  ok, fail,
}
use data_telemetry.Action.{Action, pure, raise, lift, labelled, ◌>>=◌, ◌>>◌}
use data_telemetry.Types.{Time, Digester, ListResultEntry}
use data_telemetry.Db.Models.{Data, DigestAlias, Base, Tables}
use data_telemetry.Db.Scopes.{filter_by_digests}
use data_telemetry.Db.Processors.{Processor}
use data_telemetry.Db.Gorm.{Gorm, first_row, bases, data_by_id}

-- The request, by what the handlers read of it: the method, the query parameters (empty if absent)
-- and io.ReadAll of the body.
pub record Request : Type 0 where
  pub method : String
  pub digest : String
  pub digest_alg : String
  pub since : String
  pub limit : String
  pub body : Result Bytes

-- What has been written to the response: the digests added to X-Content-Digest, the calls of
-- WriteHeader (net/http sends the first), the content type, the creation date, the leave to cache and
-- the body.
pub record Response : Type 0 where
  pub content_digests : List Digest
  pub statuses : List ℕ
  pub content_type : String
  pub creation_date : Option Time
  -- httputil.AllowCaching was called
  pub caching : Bool
  pub body : Bytes

pub record Server : Type 0 where
  pub tables : Tables
  pub response : Response

abbrev pub db : {A : Type 0} → Action Tables A → Action Server A
db m w = let (r, t) = m w.tables in (r, record w { tables = t })

abbrev pub respond : (Response → Response) → Action Server (Unit {0})
respond f w = (ok tt, record w { response = f w.response })

abbrev pub write_header : ℕ → Action Server (Unit {0})
write_header n = respond λ r. record r { statuses = r.statuses ++ (n ∷ []) }

-- The zero value of db.Base.
abbrev pub no_base : Base
no_base = record {
  id = 0;
  created_at = 0;
  processor_version = 0;
  content = record { id = 0; raw_data = []; canonical_digest = "" };
  data_id = 0;
}

-- The server's parameters: go-digest, the canonical algorithm (digest.Canonical), the parsing of
-- times and numbers, and the writing of a response.
pub record Config : Type 0 where
  pub digester : Digester
  pub canonical : Algorithm
  pub gorm : Gorm
  pub parse_time : String → Result Time
  -- strconv.Atoi, as gorm's Limit reads the number: a negative one is no limit
  pub atoi : String → Result (Option ℕ)
  -- Write of http.ResponseWriter: how many bytes were written, and the error
  pub write : Response → Bytes → ℕ × Status
  -- httputil.WriteJSON of {"Results": entries}
  pub write_json : List ListResultEntry → Response → Status × Response

abbrev pub parsed : ℕ → String → Option Digest → Result Digest
parsed status text none = fail (http_error status text)
parsed status text (some d) = ok d

module _ (c : Config) where
  abbrev from_bytes : Algorithm → Bytes → Digest
  from_bytes = c.digester.from_bytes

  abbrev available_or : {A : Type 0} → Algorithm → A → Result A
  available_or alg a =
      if c.digester.available alg then ok a else fail (http_error 400 "Unknown digest algorithm")

  -- The digest that the server computes, from the query parameters and the body.
  unfoldable pub parse_data_put_params : Bytes → Request → Result Digest
  parse_data_put_params content req =
      if str_eq req.digest ""
      then if str_eq req.digest_alg ""
        then ok (from_bytes c.canonical content)
        else available_or req.digest_alg (from_bytes req.digest_alg content)
      else elim (parsed 400 "Invalid digest parameter" (c.digester.parse req.digest)) [
        | fail e ↦ fail e
        | ok client ↦
            if c.digester.available (c.digester.algorithm client)
            then if str_eq (from_bytes (c.digester.algorithm client) content) client
              then ok (from_bytes (c.digester.algorithm client) content)
              else fail
                  (http_error 409 "Digests for content and specified in query param do not match")
            else fail (http_error 400 "Unknown digest algorithm")
      ]

  unfoldable pub canonical_digest : Digest → Bytes → Digest
  canonical_digest dgst content =
      if str_eq (c.digester.algorithm dgst) c.canonical
      then dgst
      else from_bytes c.canonical content

  -- The base row of a data record in a table, if there is one. Its data is not loaded.
  unfoldable pub find_base : String → ℕ → Action Tables (Option Base)
  find_base table data_id = do
    rows ← c.gorm.read
    pure (elim (first_row (select (λ b. data_id == b.data_id) (bases table rows))) [
      | ok b ↦ some (record b { content = no_base.content })
      | fail e ↦ none
    ])

  -- The end of `genericPutData`: the object is processed at the current version.
  unfoldable pub process_current : Processor → Data → Base → Action Server (Unit {0})
  process_current p content base = do
    db (
        p.process
          (record base { processor_version = p.version; content = content; data_id = content.id }))
    write_header 201

  -- An object that exists at the current version is left alone; one at another version is processed
  -- again.
  unfoldable pub process_object : Processor → Data → Option Base → Action Server (Unit {0})
  unfolding process_current
  process_object p content none = process_current p content no_base
  process_object p content (some base) = do
    write_header 204
    if base.processor_version == p.version then pure tt else process_current p content base

  -- Steps 1 to 3 of `genericPutData`: the data record, the digest record, the object.
  unfoldable pub store_data : Processor → Bytes → Digest → Action Server (Unit {0})
  unfolding canonical_digest find_base process_object
  store_data p content dgst = do
    data_record ← db (c.gorm.first_or_create_data (canonical_digest dgst content) content)
    digest_record ← db (c.gorm.first_or_create_digest data_record.id dgst)
    found ← db (find_base p.primary_table data_record.id)
    process_object p data_record found

  unfoldable pub generic_put_data : Processor → Request → Action Server (Unit {0})
  unfolding parse_data_put_params store_data
  generic_put_data p req = do
    content ← lift (as_http 400 "Unable to read the body" req.body)
    dgst ← lift (parse_data_put_params content req)
    respond (λ r. record r { content_digests = r.content_digests ++ (dgst ∷ []) })
    store_data p content dgst

  -- Preload("Data")
  unfoldable pub preload_data : List Data → Base → Base
  preload_data rows b = record b {
    content = elim (data_by_id b.data_id rows) [ some x ↦ x | none ↦ no_base.content ];
  }

  unfoldable pub find_by_digest : String → Digest → Tables → Result Base
  unfolding filter_by_digests preload_data
  find_by_digest table dgst t =
      elim (first_row
        (filter_by_digests (λ (b : Base). b.data_id) (dgst ∷ []) t.digests (bases table t))) [
          | fail e ↦ fail (http_error 404 ("Data in " <> table <> " not found"))
          | ok b ↦ ok (preload_data t.data_rows b)
        ]

  unfoldable pub write_body : Bytes → Action Server (Unit {0})
  write_body content w =
      let (n, r) = c.write w.response content in
      (r, record w { response = record w.response { body = w.response.body ++ take n content } })

  unfoldable pub generic_get_data : String → String → Request → Action Server (Unit {0})
  unfolding find_by_digest write_body
  generic_get_data table media_type req = do
    dgst ← lift (parsed 400 "Invalid digest-alg parameter" (c.digester.parse req.digest))
    rows ← db c.gorm.read
    base ← lift (find_by_digest table dgst rows)
    respond (λ r. record r {
      content_digests = r.content_digests ++ (dgst ∷ []);
      creation_date = some base.created_at;
      caching = true;
      content_type = media_type;
    })
    if str_eq req.method "GET"
        then labelled "getting data" (write_body base.content.raw_data)
        else if str_eq req.method "HEAD"
        then pure tt
        else raise (http_error 405 "Only GET and HEAD are allowed on this endpoint.")
