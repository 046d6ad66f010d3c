-- ===== src/Client/Requests.antt =====
-- The requests of pkg/client/requests.go and pkg/client/auth.go. The HTTP transport, the JSON
-- decoder, the formatting of times and numbers and the media types of other packages are fields of
-- `Http`. A request keeps its query as the pairs that `url.Values.Encode` is given. Logging, the
-- deferred closing of bodies, whose errors are ignored, and the failures of
-- `http.NewRequestWithContext` are left out: the URL is one that was parsed, and the methods are
-- constants.
pub mod Outcomes
use data_telemetry.Prelude.{
  ℕ, String, ◌<>◌, Bool, true, false, ◌&&◌, Option, none, some, List, [], ◌∷◌, str_eq, leb, ◌==◌,
  if◌then◌else◌,
}
use data_telemetry.Errors.{
  Digest, Algorithm, Bytes, GoError, missing_digests, message, panicked, wrapped, Result, ok, fail,
  Status, wrap,
}
use data_telemetry.Action.{Action, pure, raise, lift, labelled, ◌>>=◌, ◌>>◌}
use data_telemetry.Types.{Time, LocationResponse, ListResultEntry, SearchResult, Digester}

pub record Url : Type 0 where
  pub host : String
  pub path : String

pub record Request : Type 0 where
  pub method : String
  pub url : Url
  pub query : List (String × String)
  pub content_type : String
  pub authorization : String
  pub body : Bytes

pub record Response : Type 0 where
  pub status : ℕ
  pub content_digest : String
  pub content_type : String
  -- io.ReadAll(res.Body)
  pub body : Result Bytes
  -- res.Body.Close()
  pub close : Status

pub record Http (W : Type 0) : Type 0 where
  pub round_trip : Request → Action W Response
  pub digester : Digester
  pub decode_missing : Bytes → Result (String × List Digest)
  pub decode_list : Bytes → Result (List ListResultEntry)
  pub decode_locations : Bytes → Result (List LocationResponse)
  pub decode_search : Bytes → Result (List SearchResult)
  pub format_time : Time → String
  pub format_int : ℕ → String
  pub media_type_bottle_config : String
  pub media_type_image_manifest : String
  pub media_type_problem : String

pub record ApiEntry : Type 0 where
  pub path : String
  pub content_type : String

-- `if token != "" { req.Header.Set("Authorization", "Bearer "+token) }`
unfoldable pub with_bearer_token_auth : String → Request → Request
with_bearer_token_auth token req =
    if str_eq token "" then req else record req { authorization = "Bearer " <> token }

module _ {W : Type 0} (h : Http W) where
  unfoldable pub api_mapper : String → Option ApiEntry
  api_mapper obj_type =
      if str_eq obj_type "blob"
      then some (record { path = "/blob"; content_type = "application/octet-stream" })
      else if str_eq obj_type "bottle"
      then some (record { path = "/bottle"; content_type = h.media_type_bottle_config })
      else if str_eq obj_type "manifest"
      then some (record { path = "/manifest"; content_type = h.media_type_image_manifest })
      else if str_eq obj_type "event"
      then some (record { path = "/event"; content_type = "application/json" })
      else if str_eq obj_type "signature"
      then some (record { path = "/signature"; content_type = "application/json" })
      else none

  unfoldable pub api_entry : String → Result ApiEntry
  unfolding api_mapper
  api_entry obj_type = elim (api_mapper obj_type) [
    | none ↦ fail (message ("unknown api type " <> obj_type))
    | some entry ↦ ok entry
  ]

  unfoldable pub process_error_response : Response → Status
  process_error_response response = elim response.body [
    | fail e ↦ fail (wrapped "unable to read the rest of the HTTP response body" e)
    | ok content ↦
        if response.status == 412 && str_eq response.content_type h.media_type_problem
        then elim (h.decode_missing content) [
          | fail e ↦ fail e
          | ok (item, digests) ↦ fail (missing_digests item digests)
        ]
        else fail (message "unknown HTTP error")
  ]

  -- The end of `doPutRequest`, once the response is there.
  unfoldable pub put_outcome : Response → Status
  unfolding process_error_response
  put_outcome res =
      if leb 300 res.status
      then process_error_response res
      else if str_eq res.content_digest ""
      then fail (message "expected header X-Content-Digest is missing")
      else res.close

  -- `alg.FromBytes` panics on an algorithm that is not available.
  unfoldable pub has_hash : Algorithm → Status
  has_hash alg =
      if h.digester.available alg then ok tt else fail (panicked "unavailable digest algorithm")

  unfoldable pub put_request : Url → ApiEntry → Bytes → Algorithm → String → Request
  unfolding with_bearer_token_auth
  put_request u entry content alg token = with_bearer_token_auth token (record {
    method = "PUT";
    url = record u { path = u.path <> entry.path };
    query = ("digest", h.digester.from_bytes alg content) ∷ [];
    content_type = entry.content_type;
    authorization = "";
    body = content;
  })

  unfoldable pub do_put_request : Url → String → Bytes → Algorithm → String → Action W (Unit {0})
  unfolding api_entry has_hash put_outcome put_request
  do_put_request u obj_type content alg token = do
    entry ← lift (api_entry obj_type)
    lift (has_hash alg)
    res ←
        labelled "unable to perform HTTP put request"
          (h.round_trip (put_request u entry content alg token))
    lift (put_outcome res)

  unfoldable pub get_request : Url → String → List (String × String) → String → Request
  unfolding with_bearer_token_auth
  get_request u path query token = with_bearer_token_auth token (record {
    method = "GET";
    url = record u { path = u.path <> path };
    query = query;
    content_type = "";
    authorization = "";
    body = [];
  })

  unfoldable pub do_request : Request → Action W Bytes
  do_request req = do
    res ← labelled "unable to perform HTTP request" (h.round_trip req)
    body ← lift (wrap "unable to read body" res.body)
    if leb 300 res.status then raise (message "failed loading") else pure body

  unfoldable pub do_get_request : Url → String → Digest → String → Action W Bytes
  unfolding api_entry get_request do_request
  do_get_request u obj_type dgst token = do
    entry ← lift (api_entry obj_type)
    do_request (get_request u entry.path (("digest", dgst) ∷ []) token)

  unfoldable pub do_list_request :
      Url → String → Time → ℕ → String → Action W (List ListResultEntry)
  unfolding api_entry get_request do_request
  do_list_request u obj_type since limit token = do
    entry ← lift (api_entry obj_type)
    body ← do_request (
        get_request u entry.path
          (("since", h.format_time since) ∷ ("limit", h.format_int limit) ∷ []) token)
    lift (h.decode_list body)

  abbrev format_bool : Bool → String
  format_bool true = "true"
  format_bool false = "false"

  abbrev pairs : String → List String → List (String × String) → List (String × String)
  pairs key [] rest = rest
  pairs key (v ∷ vs) rest = (key, v) ∷ pairs key vs rest

  -- These three are called by `Single` with no options, so that they send no token.
  unfoldable pub get_locations : Url → Digest → Action W (List LocationResponse)
  unfolding get_request do_request
  get_locations u dgst = do
    body ← do_request (get_request u "/location" (("bottle_digest", dgst) ∷ []) "")
    lift (h.decode_locations body)

  unfoldable pub get_bottles_from_metric : Url → List String → String → ℕ → Bool → Action W Bytes
  unfolding get_request do_request
  get_bottles_from_metric u selectors metric limit desc = do_request (
      get_request u "/metric"
        (pairs "selector" selectors (
          ("metric", metric)
          ∷ ("limit", h.format_int limit)
          ∷ ("descending", format_bool desc)
          ∷ []))
        "")

  unfoldable pub bottle_search :
      Url → List String → String → ℕ → Bool → Action W (List SearchResult)
  unfolding get_request do_request
  bottle_search u selectors description limit digest_only = do
    body ← do_request (
        get_request u "/search"
          (("description", description)
            ∷ ("limit", h.format_int limit)
            ∷ pairs "selector" selectors (("digestOnly", format_bool digest_only) ∷ []))
          "")
    lift (h.decode_search body)
