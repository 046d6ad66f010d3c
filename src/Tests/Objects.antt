-- ===== src/Tests/Objects.antt =====
-- Examples for the processors of internal/db and for pkg/signature: a bottle with one part is stored,
-- and its manifest is pushed.
use data_telemetry.Prelude.{
  ℕ, ◌≡◌, ◌≢◌, ◌⊎◌, refl, sym, ap, ◌↔◌, true, false, none, some, [], ◌∷◌, Memᴰ, length,
}
use mathlib.Core.List.Memᴰ
use mathlib.Core.Path.{subst}
use data_telemetry.Errors.{Digest, missing_digests, http_error, ok, fail, Status}
use data_telemetry.Action.{◌>>=◌}
use data_telemetry.Types.Documents.{Descriptor, EventDto, SignatureDetail, Rules, validate_event}
use data_telemetry.Signatures.{ecdsa_key, Crypto, validate_signature}
use data_telemetry.Signatures.Valid.{IsValid, validate_signature-IsValid}
use data_telemetry.Db.Models.{Data, DigestAlias, Base, Bottle, Manifest, Event, Tables}
use data_telemetry.Db.Documents.{Documents, OciManifest}
use data_telemetry.Db.Processors.Manifests.{process_layers, process_manifest, manifest_processor}
use data_telemetry.Db.Processors.Events.{process_event}
use data_telemetry.Db.Processors.Dependencies.{
  IsNamed, IsEventOf, process_event-cases, process_manifest-cases,
}
use data_telemetry.Db.Processors.Linked.{IsLinked}
use data_telemetry.Api.{Config, Request, Server, generic_put_data}
use data_telemetry.Api.Routes.{processors}
use data_telemetry.Api.Linked.{generic_put_data-IsLinked}
use data_telemetry.Tests.Memory.{digester, gorm, gorm-IsDocumented, deletes, gorm-IsSaving}

abbrev descriptor : Digest → Descriptor
descriptor d = record { media_type = "application/jose+json"; digest = d; size = 10 }

abbrev oci_manifest : OciManifest
oci_manifest = record {
  media_type = "";
  config = descriptor "sha256:";
  layers = descriptor "sha256:part" ∷ [];
}

abbrev pull : EventDto
pull = record {
  manifest_digest = "sha256:1";
  action = "pull";
  repository = "repo";
  tag = "";
  auth_required = false;
  bandwidth = 0;
  timestamp = 5;
  username = "someone";
}

abbrev documents : Documents
documents = record {
  parse_manifest = λ raw. ok oci_manifest;
  parse_event = λ raw. ok pull;
  parse_signatures = λ raw.
      ok (record { subject_manifest = "sha256:1"; subject_bottle_id = "sha256:"; signatures = [] });
  parse_bottle = λ raw. ok (record {
    api_version = "";
    description = "";
    sources = [];
    authors = [];
    metrics = [];
    public_artifacts = [];
    labels = [];
    annotations = [];
    deprecates = [];
    parts = [];
  });
  validate_manifest = λ m. ok tt;
  validate_bottle = λ b. ok tt;
  validate_digest = λ d. ok tt;
  parse_source_uri = λ uri. ok (uri, []);
  parse_float = λ s. ok 0;
  decode_base64 = λ s. ok (1 ∷ []);
  digest_of_string = λ s. s;
  sha256_digest = λ s. s;
}

abbrev passes : {A : Type 0} → A → Status
passes a = ok tt

abbrev rules : Rules
rules = record {
  required = passes;
  required_time = passes;
  required_number = passes;
  required_descriptor = passes;
  in_set = λ allowed x. ok tt;
  at_most_time = λ limit x. ok tt;
  at_most = λ limit x. ok tt;
  is_digest = passes;
  is_media_type = passes;
  validate_struct = passes;
}

-- The key of the example is the number 7, and it verifies everything.
abbrev crypto : Crypto ℕ ℕ ℕ
crypto = record {
  media_types = record {
    notary_signature_type = "application/vnd.cncf.notary.signature";
    jws_envelope = "application/jose+json";
    cose_envelope = "application/cose";
  };
  pem_decode = λ text. some (record { block_type = "PUBLIC KEY"; der = 7 ∷ [] });
  parse_pkix = λ der. ok (ecdsa_key 7);
  encoded = λ d. d;
  hex_decode = λ text. ok (1 ∷ []);
  verify_asn1 = λ key hash sig. true;
  decode_base64 = λ text. ok (1 ∷ []);
  parse_jws = λ raw. ok 0;
  parse_cose = λ raw. ok 0;
  envelope_content = λ env. ok (record { payload = []; certificate_chain = [] });
  parse_subject = λ payload. ok (descriptor "sha256:1");
  new_verifier = λ certificate. ok 0;
  verify = λ v subject sig reference media_type. ok tt;
  digest_of_string = λ s. s;
  sha256_digest = λ s. s;
}

abbrev cosign_detail : SignatureDetail
cosign_detail = record {
  signature_type = "dev.cosignproject.cosign/signature";
  signature = "AQ==";
  descriptor = descriptor "sha256:1";
  public_key = "-----BEGIN PUBLIC KEY-----";
  annotations = [];
}

validate_signature-IsValid_example :
    (validate_signature crypto cosign_detail ≡ ok true) ↔ IsValid crypto cosign_detail
validate_signature-IsValid_example = validate_signature-IsValid crypto cosign_detail refl

abbrev bottle_data : Data
bottle_data = record { id = 1; raw_data = []; canonical_digest = "sha256:" }

abbrev base : ℕ → Base
base i = record {
  id = i;
  created_at = 1;
  processor_version = 4;
  content = bottle_data;
  data_id = i;
}

abbrev bottle : Bottle
bottle = record {
  base = base 1;
  api_version = "";
  description = "";
  authors = [];
  sources = [];
  metrics = [];
  public_artifacts = [];
  labels = [];
  annotations = [];
  parts =
      record { id = 1; location = 0; name = "a"; size = 1; digest = "sha256:part"; labels = [] }
      ∷ [];
  deprecates = [];
}

abbrev one_bottle : Tables
one_bottle = record {
  data_rows = bottle_data ∷ [];
  digests = record { id = 1; data_id = 1; digest = "sha256:" } ∷ [];
  blobs = [];
  bottles = bottle ∷ [];
  manifests = [];
  events = [];
  signatures = [];
}

one_bottle-IsLinked : IsLinked one_bottle
one_bottle-IsLinked = record {
  digest_data = λ a m. (
    bottle_data,
    Memᴰ.head refl,
    sym (ap (λ (z : DigestAlias). z.data_id) (Memᴰ.eq_of_singleton m)),
  );
  manifest_bottle = λ m n. absurd (Memᴰ.not-nil n);
  event_manifest = λ e n. absurd (Memᴰ.not-nil n);
  event_bottle = λ e n. absurd (Memᴰ.not-nil n);
  signature_manifest = λ s n. absurd (Memᴰ.not-nil n);
  signature_bottle = λ s n. absurd (Memᴰ.not-nil n);
  artifact_data = λ b a m n.
      absurd (
        Memᴰ.not-nil
          (subst (λ (z : Bottle). Memᴰ a z.public_artifacts) (Memᴰ.eq_of_singleton m) n));
}

-- The event's manifest is not stored.
process_event-cases_example :
    ((process_event gorm documents rules 9 (base 0) one_bottle
        ≡ (fail (missing_digests "manifest" ("sha256:1" ∷ [])), one_bottle))
      × ((m : Manifest) → Memᴰ m [] → IsNamed one_bottle m.base "sha256:1" → ⊥))
    ⊎ ((m : Manifest) × (x : Event) × (process_event gorm documents rules 9 (base 0) one_bottle
          ≡ gorm.save_event x one_bottle)
        × IsEventOf one_bottle (base 0) pull m x
        × (Memᴰ m [] × IsNamed one_bottle m.base "sha256:1"))
unfolding validate_event
process_event-cases_example =
    process_event-cases gorm documents rules 9 (base 0) one_bottle pull refl refl refl refl

process_manifest-cases_example :
    ((process_manifest gorm documents deletes (base 0) one_bottle
        ≡ (fail (missing_digests "bottle" ("sha256:" ∷ [])), one_bottle))
      × ((b : Bottle) → Memᴰ b (bottle ∷ []) → IsNamed one_bottle b.base "sha256:" → ⊥))
    ⊎ ((b : Bottle) × (((process_manifest gorm documents deletes (base 0) one_bottle ≡ (
      fail (http_error 400 "Manifest is not compatible with the referenced bottle"),
      one_bottle,
    ))
            × (1 ≢ length b.parts))
          ⊎ ((process_manifest gorm documents deletes (base 0) one_bottle
                ≡ (process_layers gorm documents deletes 0 oci_manifest.layers >>= λ layers.
                      gorm.save_manifest (record {
                        base = base 0;
                        bottle_id = b.base.id;
                        bottle_digest = "sha256:";
                        layers = layers;
                      }))
                    one_bottle)
              × (1 ≡ length b.parts)))
        × (Memᴰ b (bottle ∷ []) × IsNamed one_bottle b.base "sha256:"))
process_manifest-cases_example =
    process_manifest-cases gorm documents deletes (base 0) one_bottle oci_manifest refl refl refl

abbrev config : Config
config = record {
  digester = digester;
  canonical = "sha256";
  gorm = gorm;
  parse_time = λ s. ok 3;
  atoi = λ s. ok (some 10);
  write = λ r x. (length x, ok tt);
  write_json = λ entries r. (ok tt, r);
}

abbrev server : Server
server = record {
  tables = one_bottle;
  response = record {
    content_digests = [];
    statuses = [];
    content_type = "";
    creation_date = none;
    caching = false;
    body = [];
  };
}

abbrev put_body : Request
put_body = record {
  method = "PUT";
  digest = "";
  digest_alg = "";
  since = "";
  limit = "";
  body = ok (7 ∷ []);
}

manifest_known :
    Memᴰ
      (manifest_processor gorm documents deletes)
      (processors crypto gorm documents deletes rules 9)
unfolding processors
manifest_known = Memᴰ.tail (Memᴰ.tail (Memᴰ.head refl))

generic_put_data-IsLinked_example :
    IsLinked
      (generic_put_data config (manifest_processor gorm documents deletes) put_body server).1.tables
generic_put_data-IsLinked_example =
    generic_put_data-IsLinked config crypto documents deletes rules 9
      (manifest_processor gorm documents deletes) put_body server gorm-IsDocumented gorm-IsSaving
      manifest_known one_bottle-IsLinked
