-- ===== src/Db/Processors/Bottles.antt =====
-- internal/db/bottle_processor.go. The hooks that gorm runs when it saves or loads a row (BeforeSave,
-- AfterFind) are not applied here. Sizes are those that the schema allows, which are not negative.
use data_telemetry.Prelude.{
  ℕ, String, Option, none, some, List, [], ◌∷◌, ◌++◌, map, ◌==◌, str_eq, if◌then◌else◌,
}
use data_telemetry.Errors.{Digest, missing_digests, Result, ok, fail, Status, as_http}
use data_telemetry.Action.{Action, pure, lift, ◌>>=◌, ◌>>◌}
use data_telemetry.Db.Models.{
  DigestAlias, Base, Bottle, Source, Author, Metric, PublicArtifact, Label, Annotation, Part,
  Tables,
}
use data_telemetry.Db.Gorm.{Gorm}
use data_telemetry.Db.Documents.{
  Documents, Deletes, BottleDto, SourceDto, AuthorDto, MetricDto, PublicArtifactDto, PartDto,
}
use data_telemetry.Db.Helpers.{
  number_key, text_key, lookup_or, store, process_by_index, process_by_key,
}
use data_telemetry.Db.Processors.{Processor}

-- `con.Model(&dbBottle).Association(...)`: what the row with this key owns.
unfoldable pub owned_by : {A : Type 0} → (Bottle → List A) → ℕ → List Bottle → List A
owned_by rows id [] = []
owned_by rows id (b ∷ bs) =
    let rest = owned_by rows id bs in if b.base.id == id then rows b ++ rest else rest

-- `con.Where(&Digest{Digest: d}).First(&alias)`; gorm leaves a condition on an empty string out.
unfoldable pub alias_with : Digest → List DigestAlias → Option DigestAlias
alias_with d [] = none
alias_with d (x ∷ xs) =
    let rest = alias_with d xs in
    if str_eq d "" then some x else if str_eq d x.digest then some x else rest

-- What the loop does next, with an alias and without one.
abbrev pub found_alias :
    {W A : Type 0} → Option DigestAlias → Action W A → (DigestAlias → Action W A) → Action W A
found_alias none absent present = absent
found_alias (some x) absent present = present x

unfoldable pub convert_author : Author → ℕ → AuthorDto → Result Author
convert_author old i a =
    ok (record { id = old.id; location = i; name = a.name; url = a.url; email = a.email })

unfoldable pub convert_public_artifact :
    List (Digest × ℕ) → PublicArtifact → ℕ → PublicArtifactDto → Result PublicArtifact
convert_public_artifact aliases old i a = ok (record {
  id = old.id;
  location = i;
  name = a.name;
  media_type = a.media_type;
  path = a.path;
  data_id = lookup_or text_key 0 a.digest aliases;
  digest = a.digest;
})

unfoldable pub convert_label : Label → String → String → Result Label
convert_label old key value =
    ok (record { id = old.id; key = key; value = value; numeric_value = 0 })

unfoldable pub convert_annotation : Annotation → String → String → Result Annotation
convert_annotation old key value = ok (record { id = old.id; key = key; value = value })

unfoldable pub convert_part : Part → ℕ → PartDto → Result Part
convert_part old i p = ok (record {
  id = old.id;
  location = i;
  name = p.name;
  size = p.size;
  digest = p.digest;
  labels = p.labels;
})

module _ (d : Documents) where
  unfoldable pub convert_source : Source → ℕ → SourceDto → Result Source
  convert_source old i s = elim (as_http 400 "Invalid URI in sources" (d.parse_source_uri s.uri)) [
    | fail e ↦ fail e
    | ok (bottle_digest, part_selectors) ↦ ok (record {
      id = old.id;
      location = i;
      name = s.name;
      uri = s.uri;
      bottle_digest = bottle_digest;
      part_selectors = part_selectors;
    })
  ]

  unfoldable pub convert_metric : Metric → ℕ → MetricDto → Result Metric
  convert_metric old i m = elim (as_http 400 "Invalid metric value" (d.parse_float m.value)) [
    | fail e ↦ fail e
    | ok value ↦ ok (record {
      id = old.id;
      location = i;
      name = m.name;
      description = m.description;
      value = value;
    })
  ]

-- The zero values of the rows.
abbrev pub no_source : Source
no_source = record {
  id = 0;
  location = 0;
  name = "";
  uri = "";
  bottle_digest = "";
  part_selectors = [];
}

abbrev pub no_author : Author
no_author = record { id = 0; location = 0; name = ""; url = ""; email = "" }

abbrev pub no_metric : Metric
no_metric = record { id = 0; location = 0; name = ""; description = ""; value = 0 }

abbrev pub no_public_artifact : PublicArtifact
no_public_artifact = record {
  id = 0;
  location = 0;
  name = "";
  media_type = "";
  path = "";
  data_id = 0;
  digest = "";
}

abbrev pub no_label : Label
no_label = record { id = 0; key = ""; value = ""; numeric_value = 0 }

abbrev pub no_annotation : Annotation
no_annotation = record { id = 0; key = ""; value = "" }

abbrev pub no_part : Part
no_part = record { id = 0; location = 0; name = ""; size = 0; digest = ""; labels = [] }

module _ (g : Gorm) (d : Documents) (o : Deletes) where
  unfoldable pub find_owned : {A : Type 0} → (Bottle → List A) → ℕ → Action Tables (List A)
  unfolding owned_by
  find_owned rows id = do t ← g.read; pure (owned_by rows id t.bottles)

  -- The loop over the public artifacts: the digests that are missing, and the data of the others.
  unfoldable pub collect_aliases :
      List PublicArtifactDto
      → List Digest
      → List (Digest × ℕ)
      → Action Tables (List Digest × List (Digest × ℕ))
  unfolding alias_with store
  collect_aliases [] missing aliases = pure (missing, aliases)
  collect_aliases (a ∷ rest) missing aliases = do
    t ← g.read
    found_alias (alias_with a.digest t.digests)
        (collect_aliases rest (missing ++ (a.digest ∷ [])) aliases)
        (λ x. collect_aliases rest missing (store text_key a.digest x.data_id aliases))

  -- `if len(missingArtifactBlobs) > 0`
  abbrev pub none_missing : List Digest → Status
  none_missing [] = ok tt
  none_missing (x ∷ xs) = fail (missing_digests "blobs" (x ∷ xs))

  unfoldable pub parse_bottle : Base → Result BottleDto
  parse_bottle base = as_http 400 "Invalid JSON for bottle" (d.parse_bottle base.content.raw_data)

  unfoldable pub process_sources : ℕ → List SourceDto → Action Tables (List Source)
  unfolding find_owned convert_source
  process_sources id =
      process_by_index number_key (λ (x : Source). x.location) no_source
        (find_owned (λ b. b.sources) id) o.delete_source (convert_source d)

  unfoldable pub process_authors : ℕ → List AuthorDto → Action Tables (List Author)
  unfolding find_owned convert_author
  process_authors id =
      process_by_index number_key (λ (x : Author). x.location) no_author
        (find_owned (λ b. b.authors) id) o.delete_author convert_author

  unfoldable pub process_metrics : ℕ → List MetricDto → Action Tables (List Metric)
  unfolding find_owned convert_metric
  process_metrics id =
      process_by_index number_key (λ (x : Metric). x.location) no_metric
        (find_owned (λ b. b.metrics) id) o.delete_metric (convert_metric d)

  unfoldable pub process_public_artifacts :
      ℕ → List (Digest × ℕ) → List PublicArtifactDto → Action Tables (List PublicArtifact)
  unfolding find_owned convert_public_artifact
  process_public_artifacts id aliases =
      process_by_index number_key (λ (x : PublicArtifact). x.location) no_public_artifact
        (find_owned (λ b. b.public_artifacts) id) o.delete_public_artifact
        (convert_public_artifact aliases)

  unfoldable pub process_labels : ℕ → List (String × String) → Action Tables (List Label)
  unfolding find_owned convert_label
  process_labels id =
      process_by_key text_key (λ (x : Label). x.key) no_label (find_owned (λ b. b.labels) id)
        o.delete_label convert_label

  unfoldable pub process_annotations : ℕ → List (String × String) → Action Tables (List Annotation)
  unfolding find_owned convert_annotation
  process_annotations id =
      process_by_key text_key (λ (x : Annotation). x.key) no_annotation
        (find_owned (λ b. b.annotations) id) o.delete_annotation convert_annotation

  unfoldable pub process_parts : ℕ → List PartDto → Action Tables (List Part)
  unfolding find_owned convert_part
  process_parts id =
      process_by_index number_key (λ (x : Part). x.location) no_part (find_owned (λ b. b.parts) id)
        o.delete_part convert_part

  -- The rest of `Process`, from the public artifacts on and from the sources on.
  unfoldable pub store_bottle :
      Base
      → BottleDto
      → List Source
      → List Author
      → List Metric
      → List (Digest × ℕ)
      → Action Tables (Unit {0})
  unfolding process_public_artifacts process_labels process_annotations process_parts
  store_bottle base dto sources authors metrics aliases = do
    artifacts ← process_public_artifacts base.id aliases dto.public_artifacts
    labels ← process_labels base.id dto.labels
    annotations ← process_annotations base.id dto.annotations
    parts ← process_parts base.id dto.parts
    g.save_bottle (record {
      base = base;
      api_version = dto.api_version;
      description = dto.description;
      authors = authors;
      sources = sources;
      metrics = metrics;
      public_artifacts = artifacts;
      labels = labels;
      annotations = annotations;
      parts = parts;
      deprecates = map (λ x. record { id = 0; deprecated_bottle_digest = x }) dto.deprecates;
    })

  unfoldable pub process_dto : Base → BottleDto → Action Tables (Unit {0})
  unfolding process_sources process_authors process_metrics collect_aliases store_bottle
  process_dto base dto = do
    sources ← process_sources base.id dto.sources
    authors ← process_authors base.id dto.authors
    metrics ← process_metrics base.id dto.metrics
    found ← collect_aliases dto.public_artifacts [] []
    lift (none_missing found.0)
    store_bottle base dto sources authors metrics found.1

  unfoldable pub process_bottle : Base → Action Tables (Unit {0})
  unfolding parse_bottle process_dto
  process_bottle base = do
    dto ← lift (parse_bottle base)
    lift (as_http 400 "Invalid bottle definition" (d.validate_bottle dto))
    process_dto base dto

  unfoldable pub bottle_processor : Processor
  unfolding process_bottle
  bottle_processor = record { primary_table = "bottles"; version = 11; process = process_bottle }
