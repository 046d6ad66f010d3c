-- ===== src/Tests/Sends.antt =====
-- An example for the `Send` methods: a server that stores digests and asks for what an object refers to. An object
-- is one number: an artifact 0, a bottle 1 of that artifact, a manifest 2 of that bottle, an event 3 of that manifest.
use data_telemetry.Prelude.{
  zero, suc, ◌≡◌, refl, ap, String, Bool, true, false, Option, some, none, List, [], ◌∷◌, arith,
  Option-cases, inl, inr,
}
use data_telemetry.Errors.{
  Digest, Algorithm, Bytes, GoError, as_missing, missing_digests, Result, ok, fail,
}
use data_telemetry.Action.Returns.{Returns}
use data_telemetry.Client.{GetArtifactData}
use data_telemetry.Client.Requests.{
  Url, Request, Response, Http, api_mapper, api_entry, do_put_request,
}
use data_telemetry.Client.Single.Holdings.{Holdings, add, lacking}
use data_telemetry.Client.Single.Uploads.{Accepts}

abbrev digest_of : Bytes → Digest
digest_of [] = "sha256:"
digest_of (zero ∷ xs) = "sha256:artifact"
digest_of (suc zero ∷ xs) = "sha256:bottle"
digest_of (suc (suc zero) ∷ xs) = "sha256:manifest"
digest_of (suc (suc (suc n)) ∷ xs) = "sha256:event"

abbrev reference : Bytes → Option Digest
reference [] = none
reference (zero ∷ xs) = none
reference (suc zero ∷ xs) = some "sha256:artifact"
reference (suc (suc zero) ∷ xs) = some "sha256:bottle"
reference (suc (suc (suc n)) ∷ xs) = some "sha256:manifest"

abbrev listed : Option Digest → List Digest
listed none = []
listed (some d) = d ∷ []

abbrev query_digest : List (String × String) → Digest
query_digest [] = ""
query_digest ((key, d) ∷ query) = d

abbrev answer : Request → Holdings → List Digest → Result Response × Holdings
answer req s [] = (
  ok (record {
    status = 201;
    content_digest = "sha256:it";
    content_type = "";
    body = ok [];
    close = ok tt;
  }),
  add (query_digest req.query) s,
)
answer req s (d ∷ ds) = (
  ok (record {
    status = 412;
    content_digest = "";
    content_type = "problem";
    body = ok req.body;
    close = ok tt;
  }),
  s,
)

abbrev http : Http Holdings
http = record {
  round_trip = λ req s. answer req s (lacking s (listed (reference req.body)));
  digester = record {
    parse = λ s. some s;
    algorithm = λ d. "sha256";
    encoded = λ d. d;
    available = λ alg. true;
    from_bytes = λ alg x. digest_of x;
  };
  decode_missing = λ b. ok ("object", listed (reference b));
  decode_list = λ b. ok [];
  decode_locations = λ b. ok [];
  decode_search = λ b. ok [];
  format_time = λ t. "";
  format_int = λ n. "";
  media_type_bottle_config = "bottle";
  media_type_image_manifest = "manifest";
  media_type_problem = "problem";
}

abbrev url : Url
url = record { host = "localhost"; path = "/api" }

abbrev is_some : {A : Type 0} → Option A → Bool
is_some none = false
is_some (some a) = true

accepted :
    (t : String) (alg : Algorithm) (x : Bytes) (s : Holdings)
    → is_some (api_mapper http t) ≡ true
    → lacking s (listed (reference x)) ≡ []
    → Returns (do_put_request http url t x alg "") s tt (λ s'. s' ≡ add (digest_of x) s)
unfolding do_put_request
accepted t alg x s known none_lacking = elim (Option-cases (api_mapper http t)) [
  | inl unknown ↦ cc (rw unknown at known)
  | inr entry ↦ record {
    value = rw (do_put_request, api_entry, entry.1, none_lacking) refl;
    after = rw (do_put_request, api_entry, entry.1, none_lacking) refl;
  }
]

lacking_one :
    (s : Holdings) (o : Option Digest) (d : Digest) (ds : List Digest)
    → lacking s (listed o) ≡ d ∷ ds
    → listed o ≡ d ∷ ds
lacking_one s none d ds h = h
lacking_one s (some e) d ds h = ground (arith, h)

refused :
    (t : String) (alg : Algorithm) (x : Bytes) (s : Holdings) (d : Digest) (ds : List Digest)
    → is_some (api_mapper http t) ≡ true
    → lacking s (listed (reference x)) ≡ d ∷ ds
    → (e : GoError) × ((do_put_request http url t x alg "" s).0 ≡ fail e)
      × (as_missing e ≡ some (d ∷ ds))
      × ((do_put_request http url t x alg "" s).1 ≡ s)
unfolding do_put_request as_missing
refused t alg x s d ds known some_lacking = elim (Option-cases (api_mapper http t)) [
  | inl unknown ↦ cc (rw unknown at known)
  | inr entry ↦
      rw (do_put_request, api_entry, entry.1, some_lacking)
        (
          missing_digests "object" (listed (reference x)),
          refl,
          ap some (lacking_one s (reference x) d ds some_lacking),
          refl,
        )
]

server : Accepts http url ""
server = record {
  holds = λ s. s;
  needs = λ t x. listed (reference x);
  well_formed = λ t x. is_some (api_mapper http t);
  accepted = accepted;
  refused = refused;
}

abbrev get : GetArtifactData
get d = ok (0 ∷ [])

abbrev nothing : Holdings
nothing d = false
