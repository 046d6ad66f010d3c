-- ===== src/Signatures/Notary.antt =====
-- internal/db/signature_processor.go: which Notary signatures are valid.
use data_telemetry.Prelude.{
  String, ◌<>◌, ◌≡◌, ◌≢◌, ◌⊎◌, List, [], ◌∷◌, ◌++◌, refl, ap, ◌∙◌, ◌↔◌, true, false, str_eq, eq_iff,
  Bool-cases, inl, inr,
}
use data_telemetry.Errors.{Bytes, Result, ok, fail, ok-injective}
use data_telemetry.Types.Documents.{Descriptor}
use data_telemetry.Signatures.{
  Crypto, verify_notary, cert_and_subject, parse_envelope, last, signing_cert, EnvelopeContent,
  validate_signature_notary,
}
use data_telemetry.Signatures.Steps.{and_after_ok, wrap_ok, wrap_error_ok}

-- `last` is the end of a list.
last_append : (x y : Bytes) (xs : List Bytes) → last x (xs ++ (y ∷ [])) ≡ y
last_append x y [] = refl
last_append x y (z ∷ xs) = last_append z y xs

before_last_one :
    (x : Bytes) (xs : List Bytes) → (before : List Bytes) × (x ∷ xs ≡ before ++ (last x xs ∷ []))
before_last_one x [] = ([], refl)
before_last_one x (y ∷ xs) =
    let (before, e) = before_last_one y xs in (x ∷ before, ap (λ l. x ∷ l) e)

last_unique :
    (x : Bytes) (xs before : List Bytes) (y : Bytes) → x ∷ xs ≡ before ++ (y ∷ []) → last x xs ≡ y
last_unique x xs [] y e = ap (λ l. elim l [ [] ↦ y | z ∷ zs ↦ last z zs ]) e
last_unique x xs (b ∷ before) y e =
    ap (λ l. elim l [ [] ↦ y | z ∷ zs ↦ last z zs ]) e ∙ last_append b y before

signing_cert_ok :
    (chain : List Bytes) (s : Descriptor) (x : Bytes) (subject : Descriptor)
    → (signing_cert s chain ≡ ok (x, subject))
      ↔ ((before : List Bytes) × (chain ≡ before ++ (x ∷ [])) × (s ≡ subject))
signing_cert_ok [] s x subject = (λ h. cc, λ (before, e, same). absurd (nil_append before x e))
  where
    nil_append : (before : List Bytes) (x : Bytes) → [] ≡ before ++ (x ∷ []) → ⊥
    nil_append [] x e = cc
    nil_append (b ∷ before) x e = cc
signing_cert_ok (y ∷ ys) s x subject = (
  λ h.
      let e = ok-injective (last y ys, s) (x, subject) h in
      let (before, split) = before_last_one y ys in
      (
        before,
        split ∙ ap (λ (p : Bytes × Descriptor). before ++ (p.0 ∷ [])) e,
        ap (λ (p : Bytes × Descriptor). p.1) e,
      ),
  λ (before, e, same).
      ap (λ z. Result.ok (z, s)) (last_unique y ys before x e) ∙ ap (λ z. Result.ok (x, z)) same,
)

module _ {Key Envelope Verifier : Type 0} (c : Crypto Key Envelope Verifier) where
  -- The signature parses as an envelope of its media type, JWS or COSE.
  abbrev pub IsEnvelope : String → Bytes → Envelope → Type 0
  IsEnvelope media_type sig env =
      ((media_type ≡ c.media_types.jws_envelope) × (c.parse_jws sig ≡ ok env))
      ⊎ ((media_type ≢ c.media_types.jws_envelope)
          × (media_type ≡ c.media_types.cose_envelope)
          × (c.parse_cose sig ≡ ok env))

  -- The subject of the envelope, and the certificate at the end of its chain.
  abbrev pub IsSigner : String → Bytes → Bytes → Descriptor → Type 0
  IsSigner media_type sig x subject =
      (env : Envelope) × IsEnvelope media_type sig env
      × (content : EnvelopeContent) × (c.envelope_content env ≡ ok content)
      × (c.parse_subject content.payload ≡ ok subject)
      × (before : List Bytes) × (content.certificate_chain ≡ before ++ (x ∷ []))

  -- The signature is an envelope of its media type, and its last certificate verifies it.
  abbrev pub IsNotarized : String → Bytes → Type 0
  IsNotarized media_type sig =
      (x : Bytes) × (subject : Descriptor) × IsSigner media_type sig x subject
      × (v : Verifier) × (c.new_verifier x ≡ ok v)
      × (c.verify v subject sig ("local/bottle@" <> subject.digest) c.media_types.jws_envelope
          ≡ ok tt)

  parse_envelope_ok :
      (media_type : String) (sig : Bytes) (env : Envelope)
      → (parse_envelope c media_type sig ≡ ok env) ↔ IsEnvelope media_type sig env
  unfolding parse_envelope
  parse_envelope_ok media_type sig env =
      let jws_iff = eq_iff media_type c.media_types.jws_envelope in
      let cose_iff = eq_iff media_type c.media_types.cose_envelope in
      elim (Bool-cases (str_eq media_type c.media_types.jws_envelope)) [
        | inl jws ↦ rw jws (
          λ h. inl (jws_iff.0 jws, (wrap_ok "parsing jws signature envelope" _ env).0 h),
          λ h. elim h [
            | inl (e, p) ↦ (wrap_ok "parsing jws signature envelope" _ env).1 p
            | inr (n, e, p) ↦ absurd (n (jws_iff.0 jws))
          ],
        )
        | inr other ↦ elim (Bool-cases (str_eq media_type c.media_types.cose_envelope)) [
          | inl cose ↦
              rw (other, cose)
                (
                  λ h. inr (
                    λ e. cc (other, jws_iff.1 e),
                    cose_iff.0 cose,
                    (wrap_ok "parsing cose signature envelope" _ env).0 h,
                  ),
                  λ h. elim h [
                    | inl (e, p) ↦ cc (other, jws_iff.1 e)
                    | inr (n, e, p) ↦ (wrap_ok "parsing cose signature envelope" _ env).1 p
                  ],
                )
          | inr neither ↦
              rw (other, neither)
                (
                  λ h. cc,
                  λ h. elim h [
                    | inl (e, p) ↦ cc (other, jws_iff.1 e)
                    | inr (n, e, p) ↦ cc (neither, cose_iff.1 e)
                  ],
                )
        ]
      ]

  cert_and_subject-IsSigner :
      (media_type : String) (sig x : Bytes) (subject : Descriptor)
      → (cert_and_subject c media_type sig ≡ ok (x, subject)) ↔ IsSigner media_type sig x subject
  unfolding cert_and_subject
  cert_and_subject-IsSigner media_type sig x subject = (
    λ h.
        let (env, parsed, rest) = (and_after_ok _ _ (x, subject)).0 h in
        let (content, opened, rest2) = (and_after_ok _ _ (x, subject)).0 rest in
        let (s, read, rest3) = (and_after_ok _ _ (x, subject)).0 rest2 in
        let (before, chain, same) =
          (signing_cert_ok content.certificate_chain s x subject).0 rest3 in
        (
          env,
          (parse_envelope_ok media_type sig env).0 parsed,
          content,
          (wrap_ok "extracting envelope content" _ content).0 opened,
          (wrap_ok "extracting subject from envelope" _ s).0 read ∙ ap ok same,
          before,
          chain,
        ),
    λ (env, parsed, content, opened, read, before, chain). (and_after_ok _ _ (x, subject)).1 (
      env,
      (parse_envelope_ok media_type sig env).1 parsed,
      (and_after_ok _ _ (x, subject)).1 (
        content,
        (wrap_ok "extracting envelope content" _ content).1 opened,
        (and_after_ok _ _ (x, subject)).1 (
          subject,
          (wrap_ok "extracting subject from envelope" _ subject).1 read,
          (signing_cert_ok content.certificate_chain subject x subject).1 (before, chain, refl),
        ),
      ),
    ),
  )

  as_valid_ok :
      (r : Result (Unit {0}))
      → (elim r [ ok u ↦ ok true | fail e ↦ ok false ] ≡ Result.ok true) ↔ (r ≡ ok tt)
  as_valid_ok (ok u) = (λ h. refl, λ h. refl)
  as_valid_ok (fail e) = (λ h. cc, λ h. cc)

  pub validate_signature_notary_ok :
      (media_type : String) (sig : Bytes)
      → (validate_signature_notary c media_type sig ≡ ok true) ↔ IsNotarized media_type sig
  unfolding validate_signature_notary verify_notary
  validate_signature_notary_ok media_type sig = (
    λ h.
        let (p, found, rest) = (and_after_ok _ _ true).0 h in
        let (v, made, valid) = (and_after_ok _ _ tt).0 ((as_valid_ok _).0 rest) in
        (
          p.0,
          p.1,
          (cert_and_subject-IsSigner media_type sig p.0 p.1).0
              ((wrap_error_ok "retrieving signing certificate" _ p).0 found),
          v,
          (wrap_ok "simple cert create verifier" _ v).0 made,
          (wrap_ok "validating signature" _ tt).0 valid,
        ),
    λ (x, subject, found, v, made, valid). (and_after_ok _ _ true).1 (
      (x, subject),
      (wrap_error_ok "retrieving signing certificate" _ (x, subject)).1
          ((cert_and_subject-IsSigner media_type sig x subject).1 found),
      (as_valid_ok (verify_notary c subject sig x)).1 (
          (and_after_ok _ _ tt).1 (
            v,
            (wrap_ok "simple cert create verifier" _ v).1 made,
            (wrap_ok "validating signature" _ tt).1 valid,
          )),
    ),
  )
