-- ===== src/Signatures.antt =====
-- pkg/signature/sigvalidate.go, and the functions of internal/db/signature_processor.go that choose a
-- key and a way to validate. PEM, X.509, ECDSA, hexadecimal digits and the Notary libraries are
-- parameters.
pub mod Steps
pub mod Notary
pub mod Valid
use data_telemetry.Prelude.{
  ℕ, String, ◌<>◌, Bool, true, false, Option, none, some, List, [], ◌∷◌, str_eq, if◌then◌else◌,
}
use data_telemetry.Errors.{
  Digest, Bytes, GoError, message, panicked, wrapped, Result, ok, fail, Status, wrap,
}
use data_telemetry.Types.Documents.{
  Descriptor, SignatureDetail, MediaTypes, cosign_signature_type, annotation_x509_chain_thumbprint,
}

-- x509.ParsePKIXPublicKey returns a key of one of several types.
pub data PublicKey (Key : Type 0) : Type 0 where
  ecdsa_key : Key → PublicKey Key
  other_key : PublicKey Key

pub record PemBlock : Type 0 where
  pub block_type : String
  pub der : Bytes

-- What a signature envelope holds: the payload and the certificates of the signer.
pub record EnvelopeContent : Type 0 where
  pub payload : Bytes
  pub certificate_chain : List Bytes

pub record Crypto (Key Envelope Verifier : Type 0) : Type 0 where
  pub media_types : MediaTypes
  pub pem_decode : String → Option PemBlock
  pub parse_pkix : Bytes → Result (PublicKey Key)
  pub encoded : Digest → String
  pub hex_decode : String → Result Bytes
  pub verify_asn1 : Key → Bytes → Bytes → Bool
  pub decode_base64 : String → Result Bytes
  pub parse_jws : Bytes → Result Envelope
  pub parse_cose : Bytes → Result Envelope
  pub envelope_content : Envelope → Result EnvelopeContent
  -- the TargetArtifact of a payload
  pub parse_subject : Bytes → Result Descriptor
  -- verifier.New with the policy of the program and a store of one certificate
  pub new_verifier : Bytes → Result Verifier
  -- Verify of a subject and a signature, with the artifact reference and the media type
  pub verify : Verifier → Descriptor → Bytes → String → String → Status
  -- digest.FromString and digest.NewDigestFromEncoded(digest.SHA256, ...)
  pub digest_of_string : String → Digest
  pub sha256_digest : String → Digest

abbrev pub and_after {ℓ κ} : {A : Type ℓ} {B : Type κ} → Result A → (A → Result B) → Result B
and_after (ok a) f = f a
and_after (fail e) f = fail e

-- An error with a text in front, while a panic passes.
abbrev pub in_front : String → GoError → GoError
in_front text (panicked m) = panicked m
in_front text e = wrapped text e

abbrev pub wrap_error {ℓ} : {A : Type ℓ} → String → Result A → Result A
wrap_error text (ok a) = ok a
wrap_error text (fail e) = fail (in_front text e)

-- `key.(*ecdsa.PublicKey)`
abbrev pub as_ecdsa : {Key : Type 0} → PublicKey Key → Result Key
as_ecdsa (ecdsa_key k) = ok k
as_ecdsa other_key = fail (panicked "interface conversion")

abbrev pub last : Bytes → List Bytes → Bytes
last x [] = x
last x (y ∷ ys) = last y ys

-- The certificate at the end of a chain; an empty chain is indexed at -1.
abbrev pub signing_cert : Descriptor → List Bytes → Result (Bytes × Descriptor)
signing_cert subject [] = fail (panicked "index out of range [-1]")
signing_cert subject (x ∷ xs) = ok (last x xs, subject)

-- `sigDetail.Annotations[key]`
abbrev pub lookup : String → List (String × String) → Option String
lookup k [] = none
lookup k (x ∷ xs) = if str_eq k x.0 then some x.1 else lookup k xs

module _ {Key Envelope Verifier : Type 0} (c : Crypto Key Envelope Verifier) where
  -- A PEM text that does not decode has a nil block, of which the error message reads the type.
  unfoldable pub pub_pem_to_ecdsa : String → Result Key
  pub_pem_to_ecdsa text = elim (c.pem_decode text) [
    | none ↦ fail (panicked "invalid memory address or nil pointer dereference")
    | some block ↦
        if str_eq block.block_type "PUBLIC KEY"
        then and_after (wrap "parsing DER bytes" (c.parse_pkix block.der)) as_ecdsa
        else fail (message ("decoding PEM key to DER format; type = " <> block.block_type))
  ]

  unfoldable pub validate_signature_cosign : String → Bytes → Digest → Result Bool
  unfolding pub_pem_to_ecdsa
  validate_signature_cosign pubkey sig payload_hash =
      and_after (wrap_error "decoding public key from PEM" (pub_pem_to_ecdsa pubkey)) λ key.
        and_after (wrap "decoding payload hash" (c.hex_decode (c.encoded payload_hash)))
          λ hash. ok (c.verify_asn1 key hash sig)

  -- ValidateSignatureNotary of pkg/signature: the media type is that of JWS for every signature.
  unfoldable pub verify_notary : Descriptor → Bytes → Bytes → Status
  verify_notary subject sig certificate =
      and_after (wrap "simple cert create verifier" (c.new_verifier certificate)) λ v.
        wrap "validating signature"
          (c.verify v subject sig ("local/bottle@" <> subject.digest) c.media_types.jws_envelope)

  unfoldable pub parse_envelope : String → Bytes → Result Envelope
  parse_envelope media_type sig =
      if str_eq media_type c.media_types.jws_envelope
      then wrap "parsing jws signature envelope" (c.parse_jws sig)
      else if str_eq media_type c.media_types.cose_envelope
      then wrap "parsing cose signature envelope" (c.parse_cose sig)
      else fail (message ("signature envelope format with media type " <> media_type))

  -- The last certificate and the subject.
  unfoldable pub cert_and_subject : String → Bytes → Result (Bytes × Descriptor)
  unfolding parse_envelope
  cert_and_subject media_type sig = and_after (parse_envelope media_type sig) λ env.
      and_after (wrap "extracting envelope content" (c.envelope_content env)) λ content.
        and_after (wrap "extracting subject from envelope" (c.parse_subject content.payload))
          λ subject. signing_cert subject content.certificate_chain

  unfoldable pub validate_signature_notary : String → Bytes → Result Bool
  unfolding cert_and_subject verify_notary
  validate_signature_notary media_type sig =
      and_after (wrap_error "retrieving signing certificate" (cert_and_subject media_type sig))
        λ p. elim (verify_notary p.1 sig p.0) [ ok u ↦ ok true | fail e ↦ ok false ]

  unfoldable pub validate_signature : SignatureDetail → Result Bool
  unfolding validate_signature_notary validate_signature_cosign
  validate_signature s = and_after (c.decode_base64 s.signature) λ sig.
      if str_eq s.signature_type c.media_types.notary_signature_type
      then validate_signature_notary s.descriptor.media_type sig
      else if str_eq s.signature_type cosign_signature_type
      then validate_signature_cosign s.public_key sig s.descriptor.digest
      else fail (message ("unexpected signature type: " <> s.signature_type))

  unfoldable pub key_finger_print : SignatureDetail → Digest
  key_finger_print s = elim (lookup annotation_x509_chain_thumbprint s.annotations) [
    | some a ↦ c.sha256_digest a
    | none ↦ c.digest_of_string s.public_key
  ]
