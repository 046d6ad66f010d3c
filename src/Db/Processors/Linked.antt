-- ===== src/Db/Processors/Linked.antt =====
-- The foreign keys of internal/db/models.go, and what gorm documents of saving and deleting rows.
pub mod Rewriting
pub mod Manifests
pub mod Events
pub mod Signed
pub mod Aliases
pub mod Bottles
use data_telemetry.Prelude.{ℕ, ◌≡◌, List, [], ◌∷◌, ◌++◌, Memᴰ}
use data_telemetry.Errors.{GoError, Result, ok, fail}
use data_telemetry.Db.Models.{
  Data, DigestAlias, Blob, Bottle, PublicArtifact, Manifest, Event, Signature, Source, Author,
  Metric, Label, Annotation, Part, Layer, Tables,
}
use data_telemetry.Db.Gorm.{Gorm, ReadOutcome}
use data_telemetry.Db.Documents.{Deletes}

abbrev pub HasBottle : Tables → ℕ → Type 0
HasBottle t i = (b : Bottle) × Memᴰ b t.bottles × (b.base.id ≡ i)

abbrev pub HasManifest : Tables → ℕ → Type 0
HasManifest t i = (m : Manifest) × Memᴰ m t.manifests × (m.base.id ≡ i)

-- Some digest is one of the data.
abbrev pub HasData : Tables → ℕ → Type 0
HasData t i = (a : DigestAlias) × Memᴰ a t.digests × (a.data_id ≡ i)

-- The key is that of a data record.
abbrev pub HasContent : Tables → ℕ → Type 0
HasContent t i = (x : Data) × Memᴰ x t.data_rows × (x.id ≡ i)

-- Every foreign key to a data record, a bottle or a manifest is the key of a row, but for the data of
-- the five kinds of objects. The data of a public artifact is that of a digest record.
pub record IsLinked (t : Tables) : Type 0 where
  pub digest_data : (a : DigestAlias) → Memᴰ a t.digests → HasContent t a.data_id
  pub manifest_bottle : (m : Manifest) → Memᴰ m t.manifests → HasBottle t m.bottle_id
  pub event_manifest : (e : Event) → Memᴰ e t.events → HasManifest t e.manifest_id
  pub event_bottle : (e : Event) → Memᴰ e t.events → HasBottle t e.bottle_id
  pub signature_manifest : (s : Signature) → Memᴰ s t.signatures → HasManifest t s.manifest_id
  pub signature_bottle : (s : Signature) → Memᴰ s t.signatures → HasBottle t s.bottle_id
  pub artifact_data :
      (b : Bottle) (a : PublicArtifact)
      → Memᴰ b t.bottles
      → Memᴰ a b.public_artifacts
      → HasData t a.data_id

-- The rows of a table after a write: no key is lost, and each row is one of the old or of the given
-- rows, up to what `Same` leaves open (new keys, and what is owned).
pub record Rewrites {Row : Type 0} (id : Row → ℕ) (Same : Row → Row → Type 0)
    (given old rows : List Row) : Type 0 where
  pub kept : (x : Row) → Memᴰ x old → (y : Row) × Memᴰ y rows × (id y ≡ id x)
  pub known : (y : Row) → Memᴰ y rows → (x : Row) × Memᴰ x (given ++ old) × Same x y

-- A write fails and changes nothing, or rewrites its table.
pub data Written {Row : Type 0} (Allowed : List Row → Type 0) (put : List Row → Tables) (s : Tables)
    : Result (Unit {0}) × Tables → Type 0 where
  failed : (e : GoError) → Written Allowed put s (fail e, s)
  written : (rows : List Row) → Allowed rows → Written Allowed put s (ok tt, put rows)

abbrev pub SameArtifacts : Bottle → Bottle → Type 0
SameArtifacts x y =
    (a : PublicArtifact)
    → Memᴰ a y.public_artifacts
    → (o : PublicArtifact) × Memᴰ o x.public_artifacts × (o.data_id ≡ a.data_id)

abbrev pub BottlesRewrites : List Bottle → List Bottle → List Bottle → Type 0
BottlesRewrites = Rewrites (λ b. b.base.id) SameArtifacts

abbrev pub ManifestsRewrites : List Manifest → List Manifest → List Manifest → Type 0
ManifestsRewrites = Rewrites (λ m. m.base.id) (λ x y. x.bottle_id ≡ y.bottle_id)

abbrev pub EventsRewrites : List Event → List Event → List Event → Type 0
EventsRewrites =
    Rewrites (λ e. e.base.id) (λ x y. (x.manifest_id ≡ y.manifest_id) × (x.bottle_id ≡ y.bottle_id))

abbrev pub SignaturesRewrites : List Signature → List Signature → List Signature → Type 0
SignaturesRewrites =
    Rewrites (λ s. s.base.id) (λ x y. (x.manifest_id ≡ y.manifest_id) × (x.bottle_id ≡ y.bottle_id))

abbrev pub WritesBottles : List Bottle → Tables → Result (Unit {0}) × Tables → Type 0
WritesBottles given s =
    Written (λ rows. BottlesRewrites given s.bottles rows) (λ rows. record s { bottles = rows }) s

abbrev pub WritesManifests : List Manifest → Tables → Result (Unit {0}) × Tables → Type 0
WritesManifests given s =
    Written (λ rows. ManifestsRewrites given s.manifests rows)
      (λ rows. record s { manifests = rows }) s

abbrev pub WritesEvents : List Event → Tables → Result (Unit {0}) × Tables → Type 0
WritesEvents given s =
    Written (λ rows. EventsRewrites given s.events rows) (λ rows. record s { events = rows }) s

abbrev pub WritesSignatures : List Signature → Tables → Result (Unit {0}) × Tables → Type 0
WritesSignatures given s =
    Written (λ rows. SignaturesRewrites given s.signatures rows)
      (λ rows. record s { signatures = rows }) s

pub record IsSaving (g : Gorm) (o : Deletes) : Type 0 where
  pub reads : (s : Tables) → ReadOutcome s (g.read s)
  pub saves_blob :
      (x : Blob) (s : Tables)
      → Written
          (λ rows.
            Rewrites
              (λ b. b.base.id)
              (λ y z. y.base.data_id ≡ z.base.data_id)
              (x ∷ [])
              s.blobs
              rows)
          (λ rows. record s { blobs = rows })
          s
          (g.save_blob x s)
  pub saves_bottle : (b : Bottle) (s : Tables) → WritesBottles (b ∷ []) s (g.save_bottle b s)
  pub saves_manifest :
      (m : Manifest) (s : Tables) → WritesManifests (m ∷ []) s (g.save_manifest m s)
  pub saves_event : (e : Event) (s : Tables) → WritesEvents (e ∷ []) s (g.save_event e s)
  pub saves_signature :
      (x : Signature) (s : Tables) → WritesSignatures (x ∷ []) s (g.save_signature x s)
  pub deletes_source : (x : Source) (s : Tables) → WritesBottles [] s (o.delete_source x s)
  pub deletes_author : (x : Author) (s : Tables) → WritesBottles [] s (o.delete_author x s)
  pub deletes_metric : (x : Metric) (s : Tables) → WritesBottles [] s (o.delete_metric x s)
  pub deletes_public_artifact :
      (x : PublicArtifact) (s : Tables) → WritesBottles [] s (o.delete_public_artifact x s)
  pub deletes_label : (x : Label) (s : Tables) → WritesBottles [] s (o.delete_label x s)
  pub deletes_annotation :
      (x : Annotation) (s : Tables) → WritesBottles [] s (o.delete_annotation x s)
  pub deletes_part : (x : Part) (s : Tables) → WritesBottles [] s (o.delete_part x s)
  pub deletes_layer : (x : Layer) (s : Tables) → WritesManifests [] s (o.delete_layer x s)
