-- ===== src/Db/Processors/Linked/Manifests.antt =====
-- internal/db/manifest_processor.go: a manifest is stored with the key of a stored bottle.
use data_telemetry.Prelude.{ℕ, ◌≡◌, refl, sym, List, [], ◌∷◌, Memᴰ, inl, inr}
use mathlib.Core.List.Memᴰ
use mathlib.Core.Path.{subst}
use data_telemetry.Errors.{ok, Result-cases}
use data_telemetry.Action.{◌>>=◌}
use data_telemetry.Action.Ensures.{Post, Post-bind, Post-weaken, Keeps}
use data_telemetry.Types.Documents.{Descriptor}
use data_telemetry.Db.Models.{Base, Bottle, Manifest, Layer, Tables}
use data_telemetry.Db.Gorm.{Gorm}
use data_telemetry.Db.Documents.{Documents, Deletes, OciManifest}
use data_telemetry.Db.Helpers.{number_key, enumerate, process_by_index}
use data_telemetry.Db.Helpers.Keeps.{process_by_key-Keeps}
use data_telemetry.Db.Processors.Manifests.{
  no_layer, with_media_type, validate_manifest_against_bottle, convert_layer, find_layers,
  parse_manifest, find_bottle, process_layers, process_manifest,
}
use data_telemetry.Db.Processors.Linked.{HasBottle, IsLinked, IsSaving}
use data_telemetry.Db.Processors.Linked.Rewriting.{
  Written-Post, rewritten_manifests, ReadOutcome-cases, of_found_or, first_named-Memᴰ,
}

module _ (g : Gorm) (o : Deletes) (d : Documents) (base : Base) (saves : IsSaving g o) where
  abbrev Ready : ℕ → Tables → Type 0
  Ready i t = IsLinked t × HasBottle t i

  delete_layer-Ready : (i : ℕ) (x : Layer) → Keeps (Ready i) (o.delete_layer x)
  delete_layer-Ready i x w h =
      Written-Post (Ready i) (o.delete_layer x w) (saves.deletes_layer x w) h
        (λ rows v. (rewritten_manifests [] w rows v (λ m n. absurd (Memᴰ.not-nil n)) h.0, h.1))

  find_layers-Ready : (i id : ℕ) → Keeps (Ready i) (find_layers g d o id)
  unfolding find_layers
  find_layers-Ready i id w h = elim (ReadOutcome-cases w (g.read w) (saves.reads w)) [
    | inr (x, e) ↦ rw e h
    | inl read ↦ rw read h
  ]

  process_layers-Ready :
      (i id : ℕ) (layers : List Descriptor) → Keeps (Ready i) (process_layers g d o id layers)
  unfolding process_layers process_by_index
  process_layers-Ready i id layers w h =
      Post-weaken
        (λ news t.
          Ready i t
          × ((x : Layer)
              → Memᴰ x news
              → (old : Layer) × (k : ℕ) × (item : Descriptor) × Memᴰ (k, item) (enumerate 0 layers)
                × (convert_layer old k item ≡ ok x)))
        (λ news t. Ready i t) (Ready i) (Ready i) _ (λ news t h'. h'.0) (λ t h'. h')
        (process_by_key-Keeps (Ready i) number_key (λ (l : Layer). l.location) no_layer
          (find_layers g d o id) o.delete_layer convert_layer (find_layers-Ready i id)
          (delete_layer-Ready i) (enumerate 0 layers) w h)

  manifest_stored :
      (m : OciManifest) (b : Bottle) (w : Tables)
      → find_bottle g d o m w ≡ ok b
      → IsLinked w
      → Post
          (λ u t. IsLinked t)
          IsLinked
          ((process_layers g d o base.id m.layers >>= λ layers. g.save_manifest (record {
            base = base;
            bottle_id = b.base.id;
            bottle_digest = m.config.digest;
            layers = layers;
          }))
            w)
  unfolding find_bottle
  manifest_stored m b w found h =
      let at =
        first_named-Memᴰ (λ (b : Bottle). b.base) m.config.digest w w.bottles b
          (of_found_or _ _ b found) in
      Post-bind (process_layers g d o base.id m.layers) _ w (λ layers t. Ready b.base.id t)
        (λ u t. IsLinked t) IsLinked
        (Post-weaken (λ layers t. Ready b.base.id t) (λ layers t. Ready b.base.id t)
          (Ready b.base.id) IsLinked _ (λ layers t h'. h') (λ t h'. h'.0)
          (process_layers-Ready b.base.id base.id m.layers w (h, (b, at, refl))))
        (λ layers t h'.
          let row : Manifest = record {
            base = base;
            bottle_id = b.base.id;
            bottle_digest = m.config.digest;
            layers = layers;
          } in
          Written-Post IsLinked _ (saves.saves_manifest row t) h'.0 (λ rows v.
            rewritten_manifests (row ∷ []) t rows v
              (λ x n.
                subst (λ (z : Manifest). HasBottle t z.bottle_id) (sym (Memᴰ.eq_of_singleton n))
                  h'.1)
              h'.0))

  -- Processing a manifest keeps every foreign key the key of a row, however it ends.
  pub process_manifest-IsLinked : Keeps IsLinked (process_manifest g d o base)
  unfolding process_manifest
  process_manifest-IsLinked w h = elim (Result-cases (parse_manifest g d o base)) [
    | inr (x, e) ↦ rw e h
    | inl (m, parsed) ↦ elim (Result-cases (d.validate_manifest (with_media_type m))) [
      | inr (x, e) ↦ rw (parsed, e) h
      | inl (u, valid) ↦ elim (ReadOutcome-cases w (g.read w) (saves.reads w)) [
        | inr (x, e) ↦ rw (parsed, valid, e) h
        | inl read ↦ elim (Result-cases (find_bottle g d o m w)) [
          | inr (x, e) ↦ rw (parsed, valid, read, e) h
          | inl (b, found) ↦ elim (Result-cases (validate_manifest_against_bottle m b)) [
            | inr (x, e) ↦ rw (parsed, valid, read, found, e) h
            | inl (u', fits) ↦ rw (parsed, valid, read, found, fits) (manifest_stored m b w found h)
          ]
        ]
      ]
    ]
  ]
