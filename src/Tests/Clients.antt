-- ===== src/Tests/Clients.antt =====
-- Examples for several clients, and for the answers to a PUT. The world counts the calls.
use data_telemetry.Prelude.{
  ℕ, zero, suc, ◌+◌, ◌≡◌, ◌↔◌, refl, ◌∙◌, sym, String, Bool, some, List, [], ◌∷◌, arith, get_elem?,
}
use mathlib.Core.Option.{some-injective}
use mathlib.Core.Path.{subst}
use data_telemetry.Errors.{Bytes, GoError, as_missing, ok, fail}
use data_telemetry.Client.{Client}
use data_telemetry.Client.Dummy.{dummy}
use data_telemetry.Client.Utils.{parallel_map, generic_get}
use data_telemetry.Client.Utils.Parallel.{parallel_map-eq-each}
use data_telemetry.Client.Utils.Search.{Ends, generic_get-Ends}
use data_telemetry.Client.Multi.{join_all}
use data_telemetry.Client.Multi.Errors.{AllSucceed, join_all_ok}
use data_telemetry.Client.Requests.{Url, Response, Http, put_outcome, do_put_request}
use data_telemetry.Client.Requests.Outcomes.{IsAnswered, put_outcome-missing, do_put_request-ok}

abbrev count_call : ℕ → ℕ → ℕ → ℕ × ℕ
count_call x i w = (x + i, suc w)

abbrev three : List ℕ
three = 10 ∷ 20 ∷ 30 ∷ []

abbrev any_order : List ℕ
any_order = 2 ∷ 0 ∷ 1 ∷ []

parallel_map-eq-each_example :
    (parallel_map count_call three any_order 0).0 ≡ some 10 ∷ some 21 ∷ some 32 ∷ []
parallel_map-eq-each_example =
    parallel_map-eq-each count_call three any_order 0 (λ i j x y w a b d. refl) (λ i. ground arith)

abbrev counting : Client ℕ
counting = record (dummy ℕ) {
  put_blob = λ alg blob w. (ok tt, suc w);
  get_blob = λ dgst w. (ok (7 ∷ []), suc w);
}

abbrev two_clients : List (Client ℕ)
two_clients = dummy ℕ ∷ counting ∷ []

generic_get-Ends_example :
    Ends
      (λ c. c.get_blob "sha256:a")
      two_clients
      0
      (generic_get two_clients (λ c. c.get_blob "sha256:a") 0)
generic_get-Ends_example = generic_get-Ends (λ c. c.get_blob "sha256:a") two_clients 0

put_blob_ok :
    (i : ℕ) (c : Client ℕ) (w : ℕ)
    → get_elem? two_clients i ≡ some c
    → (c.put_blob "sha256" [] w).0 ≡ ok tt
unfolding dummy
put_blob_ok zero c w h =
    subst (λ x. (x.put_blob "sha256" [] w).0 ≡ ok tt) (some-injective (dummy ℕ) c h) refl
put_blob_ok (suc zero) c w h =
    subst (λ x. (x.put_blob "sha256" [] w).0 ≡ ok tt) (some-injective counting c h) refl
put_blob_ok (suc (suc i)) c w h = cc

join_all_ok_example :
    ((join_all (λ c. c.put_blob "sha256" []) two_clients (1 ∷ 0 ∷ []) 0).0 ≡ ok tt)
    ↔ AllSucceed (λ c. c.put_blob "sha256" []) two_clients 0
join_all_ok_example =
    join_all_ok (λ c. c.put_blob "sha256" []) two_clients (1 ∷ 0 ∷ []) 0
      (λ i j x y w a b d.
        put_blob_ok i x (y.put_blob "sha256" [] w).1 a ∙ sym (put_blob_ok i x w a))
      (λ i. ground arith)

abbrev http : Http ℕ
http = record {
  round_trip = λ req w. (
    ok (record {
      status = 201;
      content_digest = "sha256:a";
      content_type = "";
      body = ok [];
      close = ok tt;
    }),
    suc w,
  );
  digester = record {
    parse = λ s. some s;
    algorithm = λ d. "sha256";
    encoded = λ d. d;
    available = λ alg. Bool.true;
    from_bytes = λ alg x. "sha256:a";
  };
  decode_missing = λ b. ok ("bottle", "sha256:b" ∷ []);
  decode_list = λ b. ok [];
  decode_locations = λ b. ok [];
  decode_search = λ b. ok [];
  format_time = λ t. "";
  format_int = λ n. "";
  media_type_bottle_config = "bottle";
  media_type_image_manifest = "manifest";
  media_type_problem = "problem";
}

abbrev refusal : Response
refusal = record {
  status = 412;
  content_digest = "";
  content_type = "problem";
  body = ok [];
  close = ok tt;
}

put_outcome-missing_example :
    ((e : GoError) × (put_outcome http refusal ≡ fail e) × (as_missing e ≡ some ("sha256:b" ∷ [])))
    ↔ ((b : Bytes) × (item : String) × (refusal.status ≡ 412)
        × (refusal.content_type ≡ http.media_type_problem)
        × (refusal.body ≡ ok b)
        × (http.decode_missing b ≡ ok (item, "sha256:b" ∷ [])))
put_outcome-missing_example =
    put_outcome-missing http refusal ("sha256:b" ∷ []) (λ e h. cc) (λ b e h. cc) (λ e h. cc)

abbrev url : Url
url = record { host = "localhost"; path = "/api" }

do_put_request-ok_example :
    ((do_put_request http url "blob" [] "sha256" "" 0).0 ≡ ok tt)
    ↔ IsAnswered http url "blob" [] "sha256" "" 0
do_put_request-ok_example = do_put_request-ok http url "blob" [] "sha256" "" 0
