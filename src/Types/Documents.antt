-- ===== src/Types/Documents.antt =====
-- pkg/types/event.go and pkg/types/signature.go: the bodies of the requests for events and
-- signatures, and their validation. The rules of ozzo-validation are parameters.
use data_telemetry.Prelude.{ℕ, ◌+◌, String, Bool, List, [], ◌∷◌, str_eq, if◌then◌else◌}
use data_telemetry.Errors.{Digest, ok, fail, Status, wrap}
use data_telemetry.Types.{Time}

-- ocispec.Descriptor
pub record Descriptor : Type 0 where
  pub media_type : String
  pub digest : Digest
  pub size : ℕ

-- types.Event
pub record EventDto : Type 0 where
  pub manifest_digest : Digest
  pub action : String
  pub repository : String
  pub tag : String
  pub auth_required : Bool
  pub bandwidth : ℕ
  pub timestamp : Time
  pub username : String

-- types.SignatureDetail and types.SignaturesSummary
pub record SignatureDetail : Type 0 where
  pub signature_type : String
  pub signature : String
  pub descriptor : Descriptor
  pub public_key : String
  pub annotations : List (String × String)

pub record SignaturesSummary : Type 0 where
  pub subject_manifest : Digest
  pub subject_bottle_id : Digest
  pub signatures : List SignatureDetail

-- ozzo-validation: the rules that the types use, and `ValidateStruct` of the results of the rules of
-- each field.
pub record Rules : Type 0 where
  pub required : String → Status
  pub required_time : Time → Status
  pub required_number : ℕ → Status
  pub required_descriptor : Descriptor → Status
  pub in_set : List String → String → Status
  pub at_most_time : Time → Time → Status
  pub at_most : ℕ → ℕ → Status
  pub is_digest : Digest → Status
  pub is_media_type : String → Status
  pub validate_struct : List (String × List Status) → Status

-- The media types and signature types that other packages declare.
pub record MediaTypes : Type 0 where
  pub notary_signature_type : String
  pub jws_envelope : String
  pub cose_envelope : String

abbrev pub event_push : String
event_push = "push"

abbrev pub event_pull : String
event_pull = "pull"

abbrev pub cosign_signature_type : String
cosign_signature_type = "dev.cosignproject.cosign/signature"

abbrev pub signature_payload_media_type : String
signature_payload_media_type = "application/vnd.dev.cosign.simplesigning.v1+json"

abbrev pub annotation_x509_chain_thumbprint : String
annotation_x509_chain_thumbprint = "io.cncf.notary.x509chain.thumbprint#S256"

abbrev pub max_signature_payload_size : ℕ
max_signature_payload_size = 5000

abbrev minute : Time
minute = 60000000000

-- `if err := a; err != nil { return err }; return b`
abbrev pub and_then : Status → Status → Status
and_then (ok u) b = b
and_then (fail e) b = fail e

module _ (r : Rules) where
  -- Event.Validate at the time `now`. `validation.Field(&e.AuthRequired)` has no rule.
  unfoldable pub validate_event : Time → EventDto → Status
  validate_event now e = r.validate_struct (
      ("manifestDigest", r.required e.manifest_digest ∷ r.is_digest e.manifest_digest ∷ [])
      ∷ ("action", r.in_set (event_push ∷ event_pull ∷ []) e.action ∷ [])
      ∷ ("repository", r.required e.repository ∷ [])
      ∷ ("authRequired", [])
      ∷ ("timestamp", r.required_time e.timestamp ∷ r.at_most_time (now + minute) e.timestamp ∷ [])
      ∷ ("username", r.required e.username ∷ [])
      ∷ [])

  unfoldable pub validate_detail : MediaTypes → SignatureDetail → Status
  validate_detail t s =
      and_then
        (wrap "could not validate incoming signature detail struct" (
          r.validate_struct (
            (
              "signatureType",
              r.required s.signature_type
                  ∷ r.in_set (cosign_signature_type ∷ t.notary_signature_type ∷ []) s.signature_type
                  ∷ [],
            )
            ∷ ("signature", r.required s.signature ∷ [])
            ∷ ("ociDescriptor", r.required_descriptor s.descriptor ∷ [])
            ∷ (
              "publicKey",
              if str_eq s.signature_type cosign_signature_type
                  then r.required s.public_key ∷ []
                  else [],
            )
            ∷ [])))
        (wrap "could not validate incoming signature detail struct" (
          r.validate_struct (
            (
              "mediaType",
              r.required s.descriptor.media_type
                  ∷ r.is_media_type s.descriptor.media_type
                  ∷ r.in_set (signature_payload_media_type ∷ t.cose_envelope ∷ t.jws_envelope ∷ [])
                      s.descriptor.media_type
                  ∷ [],
            )
            ∷ (
              "size",
              r.required_number s.descriptor.size
                  ∷ r.at_most max_signature_payload_size s.descriptor.size
                  ∷ [],
            )
            ∷ ("digest", r.required s.descriptor.digest ∷ r.is_digest s.descriptor.digest ∷ [])
            ∷ [])))

  unfoldable pub validate_details : MediaTypes → List SignatureDetail → Status
  unfolding validate_detail
  validate_details t [] = ok tt
  validate_details t (s ∷ ss) =
      and_then (wrap "invalid signature" (validate_detail t s)) (validate_details t ss)

  unfoldable pub validate_summary : MediaTypes → SignaturesSummary → Status
  unfolding validate_details
  validate_summary t s =
      and_then
        (wrap "could not validate incoming signature summary struct" (
          r.validate_struct (
            ("subjectManifest", r.required s.subject_manifest ∷ r.is_digest s.subject_manifest ∷ [])
            ∷ (
              "subjectBottleid",
              r.required s.subject_bottle_id ∷ r.is_digest s.subject_bottle_id ∷ [],
            )
            ∷ [])))
        (validate_details t s.signatures)
