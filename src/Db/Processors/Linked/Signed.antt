-- ===== src/Db/Processors/Linked/Signed.antt =====
-- internal/db/signature_processor.go: signatures are stored with the keys of a stored manifest and a
-- stored bottle.
use data_telemetry.Prelude.{◌≡◌, refl, List, [], ◌∷◌, inl, inr}
use data_telemetry.Errors.{Bytes, ok, Result-cases}
use data_telemetry.Action.Ensures.{Post, Post-bind, Post-weaken, Keeps}
use data_telemetry.Types.Documents.{Rules, SignatureDetail, SignaturesSummary, validate_summary}
use data_telemetry.Signatures.{Crypto, validate_signature}
use data_telemetry.Db.Models.{Base, Bottle, Manifest, Tables}
use data_telemetry.Db.Gorm.{Gorm}
use data_telemetry.Db.Documents.{Documents, Deletes}
use data_telemetry.Db.Processors.Signed.{
  checked, signature_row, parse_signatures, find_signed_manifest, find_signed_bottle,
  save_signatures, process_signatures,
}
use data_telemetry.Db.Processors.Linked.{HasBottle, HasManifest, IsLinked, IsSaving}
use data_telemetry.Db.Processors.Linked.Rewriting.{
  Written-Post, rewritten_signatures, ReadOutcome-cases, of_found_or, first_named-Memᴰ,
}

module _ {Key Envelope Verifier : Type 0} (c : Crypto Key Envelope Verifier) (g : Gorm)
    (o : Deletes) (d : Documents) (r : Rules) (base : Base) (saves : IsSaving g o) where
  -- What the loop needs of the tables, and keeps.
  abbrev Ready : Manifest → Bottle → Tables → Type 0
  Ready m b t = IsLinked t × HasManifest t m.base.id × HasBottle t b.base.id

  signature_saved :
      (dto : SignaturesSummary) (m : Manifest) (b : Bottle) (sig : Bytes) (s : SignatureDetail)
      → Keeps (Ready m b) (g.save_signature (signature_row c g d r base dto m b sig s))
  unfolding signature_row
  signature_saved dto m b sig s w h =
      let row = signature_row c g d r base dto m b sig s in
      Written-Post (Ready m b) _ (saves.saves_signature row w) h
        (λ rows v. (rewritten_signatures row w rows v h.1 h.2 h.0, h.1, h.2))

  save_signatures-Ready :
      (dto : SignaturesSummary) (m : Manifest) (b : Bottle) (ss : List SignatureDetail)
      → Keeps (Ready m b) (save_signatures c g d r base dto m b ss)
  unfolding save_signatures
  save_signatures-Ready dto m b [] w h = h
  save_signatures-Ready dto m b (s ∷ ss) w h = elim (Result-cases (d.decode_base64 s.signature)) [
    | inr (x, e) ↦ rw e h
    | inl (sig, decoded) ↦ elim (Result-cases (checked (validate_signature c s))) [
      | inr (x, e) ↦ rw (decoded, e) h
      | inl (u, valid) ↦
          rw (decoded, valid)
            (Post-bind (g.save_signature (signature_row c g d r base dto m b sig s))
              (λ u. save_signatures c g d r base dto m b ss) w (λ u t. Ready m b t)
              (λ u t. Ready m b t) (Ready m b) (signature_saved dto m b sig s w h)
              (λ u w' h'. save_signatures-Ready dto m b ss w' h'))
    ]
  ]

  signatures_stored :
      (dto : SignaturesSummary) (m : Manifest) (b : Bottle) (w : Tables)
      → find_signed_manifest c g d r dto w ≡ ok m
      → find_signed_bottle c g d r dto w ≡ ok b
      → IsLinked w
      → Post (λ u t. IsLinked t) IsLinked (save_signatures c g d r base dto m b dto.signatures w)
  unfolding find_signed_manifest find_signed_bottle
  signatures_stored dto m b w found found' h =
      let at =
        first_named-Memᴰ (λ (m : Manifest). m.base) dto.subject_manifest w w.manifests m
          (of_found_or _ _ m found) in
      let at' =
        first_named-Memᴰ (λ (b : Bottle). b.base) dto.subject_bottle_id w w.bottles b
          (of_found_or _ _ b found') in
      Post-weaken (λ u t. Ready m b t) (λ u t. IsLinked t) (Ready m b) IsLinked _ (λ u t h'. h'.0)
        (λ t h'. h'.0)
        (save_signatures-Ready dto m b dto.signatures w (h, (m, at, refl), (b, at', refl)))

  -- Processing signatures keeps every foreign key the key of a row, however many are saved before one
  -- is refused.
  pub process_signatures-IsLinked : Keeps IsLinked (process_signatures c g d r base)
  unfolding process_signatures
  process_signatures-IsLinked w h = elim (Result-cases (parse_signatures c g d r base)) [
    | inr (x, e) ↦ rw e h
    | inl (dto, parsed) ↦ elim (Result-cases (validate_summary r c.media_types dto)) [
      | inr (x, e) ↦ rw (parsed, e) h
      | inl (u, valid) ↦ elim (ReadOutcome-cases w (g.read w) (saves.reads w)) [
        | inr (x, e) ↦ rw (parsed, valid, e) h
        | inl read ↦ elim (Result-cases (find_signed_manifest c g d r dto w)) [
          | inr (x, e) ↦ rw (parsed, valid, read, e) h
          | inl (m, found) ↦ elim (Result-cases (find_signed_bottle c g d r dto w)) [
            | inr (x, e) ↦ rw (parsed, valid, read, found, read, e) h
            | inl (b, found') ↦
                rw (parsed, valid, read, found, read, found')
                  (signatures_stored dto m b w found found' h)
          ]
        ]
      ]
    ]
  ]
