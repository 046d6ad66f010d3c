-- ===== src/Db/Processors/Manifests.antt =====
-- internal/db/manifest_processor.go
use data_telemetry.Prelude.{ℕ, List, [], ◌∷◌, ◌++◌, length, ◌==◌, str_eq, if◌then◌else◌}
use data_telemetry.Errors.{missing_digests, message, Result, ok, fail, Status, as_http}
use data_telemetry.Action.{Action, pure, lift, ◌>>=◌, ◌>>◌}
use data_telemetry.Types.Documents.{Descriptor}
use data_telemetry.Db.Models.{Base, Bottle, Layer, Manifest, Tables}
use data_telemetry.Db.Gorm.{Gorm}
use data_telemetry.Db.Documents.{Documents, Deletes, OciManifest}
use data_telemetry.Db.Helpers.{number_key, process_by_index}
use data_telemetry.Db.Processors.{Processor, first_named, found_or}

abbrev pub no_layer : Layer
no_layer = record { id = 0; location = 0; digest = "" }

-- The media type of a manifest that gives none.
unfoldable pub with_media_type : OciManifest → OciManifest
with_media_type m =
    if str_eq m.media_type ""
    then record m { media_type = "application/vnd.oci.image.manifest.v1+json" }
    else m

unfoldable pub validate_manifest_against_bottle : OciManifest → Bottle → Status
validate_manifest_against_bottle m b =
    if length m.layers == length b.parts
    then ok tt
    else fail (message "there are more or fewer layers than parts (they must be equal)")

unfoldable pub convert_layer : Layer → ℕ → Descriptor → Result Layer
convert_layer old i l = ok (record { id = old.id; location = i; digest = l.digest })

-- `con.Model(&dbManifest).Association("Layers")`: the layers of the row with this key.
unfoldable pub layers_of : ℕ → List Manifest → List Layer
layers_of id [] = []
layers_of id (m ∷ ms) =
    let rest = layers_of id ms in if m.base.id == id then m.layers ++ rest else rest

module _ (g : Gorm) (d : Documents) (o : Deletes) where
  unfoldable pub find_layers : ℕ → Action Tables (List Layer)
  unfolding layers_of
  find_layers id = do t ← g.read; pure (layers_of id t.manifests)

  unfoldable pub parse_manifest : Base → Result OciManifest
  parse_manifest base = as_http 400 "Manifest is invalid" (d.parse_manifest base.content.raw_data)

  unfoldable pub find_bottle : OciManifest → Tables → Result Bottle
  unfolding first_named
  find_bottle m t =
      found_or (missing_digests "bottle" (m.config.digest ∷ []))
        (first_named (λ (b : Bottle). b.base) m.config.digest t t.bottles)

  unfoldable pub process_layers : ℕ → List Descriptor → Action Tables (List Layer)
  unfolding find_layers convert_layer
  process_layers id =
      process_by_index number_key (λ (l : Layer). l.location) no_layer (find_layers id)
        o.delete_layer convert_layer

  unfoldable pub process_manifest : Base → Action Tables (Unit {0})
  unfolding parse_manifest with_media_type find_bottle validate_manifest_against_bottle
      process_layers
  process_manifest base = do
    parsed ← lift (parse_manifest base)
    lift (as_http 400 "Invalid manifest definition" (d.validate_manifest (with_media_type parsed)))
    t ← g.read
    bottle ← lift (find_bottle parsed t)
    lift (
        as_http 400 "Manifest is not compatible with the referenced bottle"
          (validate_manifest_against_bottle parsed bottle))
    layers ← process_layers base.id parsed.layers
    g.save_manifest (record {
      base = base;
      bottle_id = bottle.base.id;
      bottle_digest = parsed.config.digest;
      layers = layers;
    })

  unfoldable pub manifest_processor : Processor
  unfolding process_manifest
  manifest_processor = record {
    primary_table = "manifests";
    version = 4;
    process = process_manifest;
  }
