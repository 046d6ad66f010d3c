-- ===== src/Signatures/Valid.antt =====
-- pkg/signature/sigvalidate.go and internal/db/signature_processor.go: which signatures are valid.
use data_telemetry.Prelude.{
  String, ◌<>◌, ◌≡◌, refl, ap, ◌∙◌, ◌↔◌, true, false, some, str_eq, eq_iff, Bool-cases,
  Option-cases, inl, inr, if◌then◌else◌,
}
use data_telemetry.Errors.{Digest, Bytes, message, ok, fail, wrap, ok-injective}
use data_telemetry.Types.Documents.{SignatureDetail, cosign_signature_type}
use data_telemetry.Signatures.{
  PublicKey, ecdsa_key, other_key, PemBlock, Crypto, as_ecdsa, pub_pem_to_ecdsa,
  validate_signature_cosign, validate_signature_notary, validate_signature,
}
use data_telemetry.Signatures.Steps.{and_after_ok, wrap_ok, wrap_error_ok}
use data_telemetry.Signatures.Notary.{IsNotarized, validate_signature_notary_ok}

module _ {Key Envelope Verifier : Type 0} (c : Crypto Key Envelope Verifier) where
  -- The text is a PEM block of type PUBLIC KEY with an ECDSA key.
  abbrev IsPemKey : String → Key → Type 0
  IsPemKey text k =
      (block : PemBlock) × (c.pem_decode text ≡ some block)
      × (block.block_type ≡ "PUBLIC KEY")
      × (c.parse_pkix block.der ≡ ok (ecdsa_key k))

  as_ecdsa_ok : (r : PublicKey Key) (k : Key) → (as_ecdsa r ≡ ok k) ↔ (r ≡ ecdsa_key k)
  as_ecdsa_ok (ecdsa_key x) k = (λ h. ap ecdsa_key (ok-injective x k h), λ h. ap as_ecdsa h)
  as_ecdsa_ok other_key k = (λ h. cc, λ h. cc)

  of_pub_pem_to_ecdsa : (text : String) (k : Key) → pub_pem_to_ecdsa c text ≡ ok k → IsPemKey text k
  unfolding pub_pem_to_ecdsa
  of_pub_pem_to_ecdsa text k h = elim (Option-cases (c.pem_decode text)) [
    | inl none' ↦ cc (rw (none', pub_pem_to_ecdsa) at h)
    | inr (block, e) ↦ elim (Bool-cases (str_eq block.block_type "PUBLIC KEY")) [
      | inl same ↦
          let (r, parsed, key) =
            (and_after_ok (wrap "parsing DER bytes" (c.parse_pkix block.der)) as_ecdsa k).0
              (rw (e, same, pub_pem_to_ecdsa) at h) in
          (
            block,
            e,
            (eq_iff block.block_type "PUBLIC KEY").0 same,
            (wrap_ok "parsing DER bytes" _ r).0 parsed ∙ ap ok ((as_ecdsa_ok r k).0 key),
          )
      | inr other ↦ cc (rw (e, other, pub_pem_to_ecdsa) at h)
    ]
  ]

  to_pub_pem_to_ecdsa : (text : String) (k : Key) → IsPemKey text k → pub_pem_to_ecdsa c text ≡ ok k
  unfolding pub_pem_to_ecdsa
  to_pub_pem_to_ecdsa text k (block, e, same, parsed) =
      rw (e, (eq_iff block.block_type "PUBLIC KEY").1 same, parsed, pub_pem_to_ecdsa) refl

  -- An ECDSA key verifies the signature of the decoded hash.
  abbrev IsCosigned : String → Bytes → Digest → Type 0
  IsCosigned text sig hash =
      (k : Key) × IsPemKey text k
      × (x : Bytes) × (c.hex_decode (c.encoded hash) ≡ ok x)
      × (c.verify_asn1 k x sig ≡ true)

  validate_signature_cosign_ok :
      (text : String) (sig : Bytes) (hash : Digest)
      → (validate_signature_cosign c text sig hash ≡ ok true) ↔ IsCosigned text sig hash
  unfolding validate_signature_cosign
  validate_signature_cosign_ok text sig hash = (
    λ h.
        let (k, pem, rest) = (and_after_ok _ _ true).0 h in
        let (x, hex, valid) = (and_after_ok _ _ true).0 rest in
        (
          k,
          of_pub_pem_to_ecdsa text k ((wrap_error_ok "decoding public key from PEM" _ k).0 pem),
          x,
          (wrap_ok "decoding payload hash" _ x).0 hex,
          ok-injective _ true valid,
        ),
    λ (k, pem, x, hex, valid). rw (to_pub_pem_to_ecdsa text k pem, hex, valid) refl,
  )

-- A signature that decodes, and is valid by the rules of its type.
pub data IsValid {Key Envelope Verifier : Type 0} (c : Crypto Key Envelope Verifier)
    (s : SignatureDetail) : Type 0 where
  notarized :
      (sig : Bytes)
      → c.decode_base64 s.signature ≡ ok sig
      → s.signature_type ≡ c.media_types.notary_signature_type
      → IsNotarized c s.descriptor.media_type sig
      → IsValid c s
  cosigned :
      (sig : Bytes)
      → c.decode_base64 s.signature ≡ ok sig
      → s.signature_type ≡ cosign_signature_type
      → IsCosigned c s.public_key sig s.descriptor.digest
      → IsValid c s

-- If the two types of signatures differ, a signature is reported valid exactly when it is valid by the
-- rules of its type: a Notary signature is an envelope whose last certificate verifies it, and a
-- cosign signature is verified by the ECDSA key in its PEM text.
pub validate_signature-IsValid :
    {Key Envelope Verifier : Type 0} (c : Crypto Key Envelope Verifier) (s : SignatureDetail)
    → str_eq cosign_signature_type c.media_types.notary_signature_type ≡ false
    → (validate_signature c s ≡ ok true) ↔ IsValid c s
unfolding validate_signature
validate_signature-IsValid c s differ = (out, into)
  where
    typed :
        (sig : Bytes)
        → c.decode_base64 s.signature ≡ ok sig
        → (if str_eq s.signature_type c.media_types.notary_signature_type
            then validate_signature_notary c s.descriptor.media_type sig
            else if str_eq s.signature_type cosign_signature_type
            then validate_signature_cosign c s.public_key sig s.descriptor.digest
            else fail (message ("unexpected signature type: " <> s.signature_type)))
          ≡ ok true
        → IsValid c s
    typed sig e h =
        elim (Bool-cases (str_eq s.signature_type c.media_types.notary_signature_type)) [
          | inl notary ↦
              notarized sig e
                ((eq_iff s.signature_type c.media_types.notary_signature_type).0 notary)
                ((validate_signature_notary_ok c s.descriptor.media_type sig).0 (rw notary at h))
          | inr other ↦ elim (Bool-cases (str_eq s.signature_type cosign_signature_type)) [
            | inl cosign ↦
                cosigned sig e ((eq_iff s.signature_type cosign_signature_type).0 cosign) (
                  (validate_signature_cosign_ok c s.public_key sig s.descriptor.digest).0
                    (rw (other, cosign) at h))
            | inr neither ↦ cc (rw (other, neither) at h)
          ]
        ]

    out : validate_signature c s ≡ ok true → IsValid c s
    out h =
        let (sig, e, rest) = (and_after_ok (c.decode_base64 s.signature) _ true).0 h in
        typed sig e rest

    into : IsValid c s → validate_signature c s ≡ ok true
    into (notarized sig e same valid) =
        rw
          (
            e,
            (eq_iff s.signature_type c.media_types.notary_signature_type).1 same,
            validate_signature,
          )
          ((validate_signature_notary_ok c s.descriptor.media_type sig).1 valid)
    into (cosigned sig e same valid) =
        rw
          (
            e,
            ap (λ x. str_eq x c.media_types.notary_signature_type) same ∙ differ,
            (eq_iff s.signature_type cosign_signature_type).1 same,
            validate_signature,
          )
          ((validate_signature_cosign_ok c s.public_key sig s.descriptor.digest).1 valid)
