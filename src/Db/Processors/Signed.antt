-- ===== src/Db/Processors/Signed.antt =====
-- internal/db/signature_processor.go: the processor of signatures.
use data_telemetry.Prelude.{Bool, true, false, List, [], ◌∷◌, map}
use data_telemetry.Errors.{Bytes, missing_digests, http_error, panicked, Result, ok, fail, as_http}
use data_telemetry.Action.{Action, pure, lift, ◌>>=◌, ◌>>◌}
use data_telemetry.Types.Documents.{Rules, SignatureDetail, SignaturesSummary, validate_summary}
use data_telemetry.Signatures.{Crypto, validate_signature, key_finger_print}
use data_telemetry.Db.Models.{Base, Bottle, Manifest, Signature, Tables}
use data_telemetry.Db.Gorm.{Gorm}
use data_telemetry.Db.Documents.{Documents}
use data_telemetry.Db.Processors.{Processor, first_named, found_or}

-- The result of the validation: an error is a 500, a panic passes, and `false` is a 400.
abbrev pub checked : Result Bool → Result (Unit {0})
checked (ok true) = ok tt
checked (ok false) = fail (http_error 400 "invalid signature")
checked (fail (panicked m)) = fail (panicked m)
checked (fail e) = fail (http_error 500 "read error during signature validation")

module _ {Key Envelope Verifier : Type 0} (c : Crypto Key Envelope Verifier) (g : Gorm)
    (d : Documents) (r : Rules) where
  unfoldable pub signature_row :
      Base → SignaturesSummary → Manifest → Bottle → Bytes → SignatureDetail → Signature
  unfolding key_finger_print
  signature_row base dto m b sig s = record {
    base = base;
    manifest_id = m.base.id;
    manifest_digest = dto.subject_manifest;
    bottle_id = b.base.id;
    bottle_digest = dto.subject_bottle_id;
    signature_type = s.signature_type;
    signature = sig;
    public_key = s.public_key;
    public_key_finger_print = key_finger_print c s;
    annotations = map (λ a. record { key = a.0; value = a.1 }) s.annotations;
  }

  unfoldable pub parse_signatures : Base → Result SignaturesSummary
  parse_signatures base =
      as_http 409 "Failed to parse signature" (d.parse_signatures base.content.raw_data)

  unfoldable pub find_signed_manifest : SignaturesSummary → Tables → Result Manifest
  unfolding first_named
  find_signed_manifest dto t =
      found_or (missing_digests "manifest" (dto.subject_manifest ∷ []))
        (first_named (λ (m : Manifest). m.base) dto.subject_manifest t t.manifests)

  unfoldable pub find_signed_bottle : SignaturesSummary → Tables → Result Bottle
  unfolding first_named
  find_signed_bottle dto t =
      found_or (http_error 400 "Could not find bottle for signature")
        (first_named (λ (b : Bottle). b.base) dto.subject_bottle_id t t.bottles)

  -- The loop over the signatures. Each is saved before the next is looked at.
  unfoldable pub save_signatures :
      Base → SignaturesSummary → Manifest → Bottle → List SignatureDetail → Action Tables (Unit {0})
  unfolding signature_row validate_signature
  save_signatures base dto m b [] = pure tt
  save_signatures base dto m b (s ∷ ss) = do
    sig ← lift (
        as_http 400 "could not decode signature. expected base64 format"
          (d.decode_base64 s.signature))
    lift (checked (validate_signature c s))
    g.save_signature (signature_row base dto m b sig s)
    save_signatures base dto m b ss

  unfoldable pub process_signatures : Base → Action Tables (Unit {0})
  unfolding parse_signatures validate_summary find_signed_manifest find_signed_bottle
      save_signatures
  process_signatures base = do
    dto ← lift (parse_signatures base)
    lift (as_http 400 "Invalid signature definition" (validate_summary r c.media_types dto))
    t ← g.read
    m ← lift (find_signed_manifest dto t)
    t' ← g.read
    b ← lift (find_signed_bottle dto t')
    save_signatures base dto m b dto.signatures

  unfoldable pub signature_processor : Processor
  unfolding process_signatures
  signature_processor = record {
    primary_table = "signatures";
    version = 1;
    process = process_signatures;
  }
