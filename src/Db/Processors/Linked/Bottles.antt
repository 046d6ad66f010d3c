-- ===== src/Db/Processors/Linked/Bottles.antt =====
-- internal/db/bottle_processor.go: a bottle is stored with the data of its public artifacts.
use data_telemetry.Prelude.{ℕ, String, ◌≡◌, refl, sym, ap, ◌∙◌, List, [], ◌∷◌, Memᴰ, inl, inr}
use mathlib.Core.List.Memᴰ
use mathlib.Core.Path.{subst}
use data_telemetry.Errors.{Digest, Result, ok, Result-cases, ok-injective}
use data_telemetry.Action.{Action, lift, ◌>>◌}
use data_telemetry.Action.Ensures.{Post, Post-bind, Post-weaken, Keeps}
use data_telemetry.Db.Models.{
  DigestAlias, Base, Bottle, Source, Author, Metric, PublicArtifact, Label, Annotation, Part,
  Tables,
}
use data_telemetry.Db.Gorm.{Gorm}
use data_telemetry.Db.Documents.{
  Documents, Deletes, BottleDto, SourceDto, AuthorDto, MetricDto, PublicArtifactDto, PartDto,
}
use data_telemetry.Db.Helpers.{
  Key, number_key, text_key, lookup_or, enumerate, process_by_key, process_by_index,
}
use data_telemetry.Db.Helpers.Keeps.{process_by_key-Keeps, Memᴰ-enumerate}
use data_telemetry.Db.Processors.Bottles.{
  convert_author, convert_public_artifact, convert_label, convert_annotation, convert_part,
  convert_source, convert_metric, no_source, no_author, no_metric, no_public_artifact, no_label,
  no_annotation, no_part, find_owned, collect_aliases, none_missing, parse_bottle, process_sources,
  process_authors, process_metrics, process_public_artifacts, process_labels, process_annotations,
  process_parts, store_bottle, process_dto, process_bottle,
}
use data_telemetry.Db.Processors.Linked.{HasData, IsLinked, IsSaving, WritesBottles}
use data_telemetry.Db.Processors.Linked.Rewriting.{
  Written-Post, rewritten_bottles, ReadOutcome-cases,
}
use data_telemetry.Db.Processors.Linked.Aliases.{Known, collect_aliases_all}

module _ (g : Gorm) (o : Deletes) (d : Documents) (saves : IsSaving g o) where
  -- Foreign keys hold, and the table of digests is the one that is given.
  abbrev pub LinkedWith : List DigestAlias → Tables → Type 0
  LinkedWith ds t = IsLinked t × (t.digests ≡ ds)

  module _ (ds : List DigestAlias) where
    find_owned-Keeps :
        {A : Type 0} (rows : Bottle → List A) (id : ℕ)
        → Keeps (LinkedWith ds) (find_owned g d o rows id)
    unfolding find_owned
    find_owned-Keeps rows id w h = elim (ReadOutcome-cases w (g.read w) (saves.reads w)) [
      | inr (x, e) ↦ rw e h
      | inl read ↦ rw read h
    ]

    delete-Keeps :
        {A : Type 0} (delete : A → Action Tables (Unit {0}))
        → ((x : A) (s : Tables) → WritesBottles [] s (delete x s))
        → (x : A) → Keeps (LinkedWith ds) (delete x)
    delete-Keeps delete writes x w h =
        Written-Post (LinkedWith ds) _ (writes x w) h
          (λ rows v. (rewritten_bottles [] w rows v (λ b a n m. absurd (Memᴰ.not-nil n)) h.0, h.1))

    -- The rows that a bottle owns, by key: what is kept, and what the new rows are.
    module _ {K A Item : Type 0} (key : Key K) (location : A → K) (nothing : A)
        (rows : Bottle → List A) (id : ℕ) (delete : A → Action Tables (Unit {0}))
        (writes : (x : A) (s : Tables) → WritesBottles [] s (delete x s))
        (convert : A → K → Item → Result A) where
      owned-Converted :
          (items : List (K × Item)) (w : Tables)
          → LinkedWith ds w
          → Post
              (λ news t.
                LinkedWith ds t
                × ((x : A)
                    → Memᴰ x news
                    → (old : A) × (k : K) × (item : Item) × Memᴰ (k, item) items
                      × (convert old k item ≡ ok x)))
              (LinkedWith ds)
              (process_by_key key location nothing
                (find_owned g d o rows id)
                delete
                convert
                items
                w)
      owned-Converted =
          process_by_key-Keeps (LinkedWith ds) key location nothing (find_owned g d o rows id)
            delete convert (find_owned-Keeps rows id) (delete-Keeps delete writes)

      owned-Keeps :
          (items : List (K × Item))
          → Keeps
              (LinkedWith ds)
              (process_by_key key location nothing (find_owned g d o rows id) delete convert items)
      owned-Keeps items w h =
          Post-weaken _ (λ news t. LinkedWith ds t) (LinkedWith ds) (LinkedWith ds) _
            (λ news t h'. h'.0) (λ t h'. h') (owned-Converted items w h)

    process_sources-Keeps :
        (id : ℕ) (items : List (SourceDto)) → Keeps (LinkedWith ds) (process_sources g d o id items)
    unfolding process_sources process_by_index
    process_sources-Keeps id items =
        owned-Keeps number_key (λ (x : Source). x.location) no_source (λ b. b.sources) id
          o.delete_source saves.deletes_source (convert_source d) (enumerate 0 items)

    process_authors-Keeps :
        (id : ℕ) (items : List (AuthorDto)) → Keeps (LinkedWith ds) (process_authors g d o id items)
    unfolding process_authors process_by_index
    process_authors-Keeps id items =
        owned-Keeps number_key (λ (x : Author). x.location) no_author (λ b. b.authors) id
          o.delete_author saves.deletes_author convert_author (enumerate 0 items)

    process_metrics-Keeps :
        (id : ℕ) (items : List (MetricDto)) → Keeps (LinkedWith ds) (process_metrics g d o id items)
    unfolding process_metrics process_by_index
    process_metrics-Keeps id items =
        owned-Keeps number_key (λ (x : Metric). x.location) no_metric (λ b. b.metrics) id
          o.delete_metric saves.deletes_metric (convert_metric d) (enumerate 0 items)

    process_parts-Keeps :
        (id : ℕ) (items : List (PartDto)) → Keeps (LinkedWith ds) (process_parts g d o id items)
    unfolding process_parts process_by_index
    process_parts-Keeps id items =
        owned-Keeps number_key (λ (x : Part). x.location) no_part (λ b. b.parts) id o.delete_part
          saves.deletes_part convert_part (enumerate 0 items)

    process_labels-Keeps :
        (id : ℕ) (items : List (String × String))
        → Keeps (LinkedWith ds) (process_labels g d o id items)
    unfolding process_labels
    process_labels-Keeps id items =
        owned-Keeps text_key (λ (x : Label). x.key) no_label (λ b. b.labels) id o.delete_label
          saves.deletes_label convert_label items

    process_annotations-Keeps :
        (id : ℕ) (items : List (String × String))
        → Keeps (LinkedWith ds) (process_annotations g d o id items)
    unfolding process_annotations
    process_annotations-Keeps id items =
        owned-Keeps text_key (λ (x : Annotation). x.key) no_annotation (λ b. b.annotations) id
          o.delete_annotation saves.deletes_annotation convert_annotation items

    -- The public artifacts have the data that the map leads to.
    abbrev ArtifactsOf : List (Digest × ℕ) → List PublicArtifactDto → List PublicArtifact → Type 0
    ArtifactsOf aliases items news =
        (x : PublicArtifact)
        → Memᴰ x news
        → (a : PublicArtifactDto) × Memᴰ a items
          × (x.data_id ≡ lookup_or text_key 0 a.digest aliases)

    ArtifactsOf-Converted :
        (aliases : List (Digest × ℕ)) (items : List PublicArtifactDto) (news : List PublicArtifact)
        → ((x : PublicArtifact)
            → Memᴰ x news
            → (old : PublicArtifact) × (k : ℕ) × (item : PublicArtifactDto) × Memᴰ
                (k, item)
                (enumerate 0 items)
              × (convert_public_artifact aliases old k item ≡ ok x))
        → ArtifactsOf aliases items news
    unfolding convert_public_artifact
    ArtifactsOf-Converted aliases items news from x m =
        let (old, k, a, n, made) = from x m in
        (
          a,
          Memᴰ-enumerate 0 k a items n,
          ap (λ (y : PublicArtifact). y.data_id) (sym (ok-injective _ x made)),
        )

    process_public_artifacts-Known :
        (id : ℕ) (aliases : List (Digest × ℕ)) (items : List PublicArtifactDto) (w : Tables)
        → LinkedWith ds w
        → Post
            (λ news t. LinkedWith ds t × ArtifactsOf aliases items news)
            (LinkedWith ds)
            (process_public_artifacts g d o id aliases items w)
    unfolding process_public_artifacts process_by_index
    process_public_artifacts-Known id aliases items w h =
        Post-weaken
          (λ news t.
            LinkedWith ds t
            × ((x : PublicArtifact)
                → Memᴰ x news
                → (old : PublicArtifact) × (k : ℕ) × (item : PublicArtifactDto) × Memᴰ (k, item)
                    (enumerate 0 items)
                  × (convert_public_artifact aliases old k item ≡ ok x)))
          (λ news t. LinkedWith ds t × ArtifactsOf aliases items news) (LinkedWith ds)
          (LinkedWith ds) _ (λ news t h'. (h'.0, ArtifactsOf-Converted aliases items news h'.1))
          (λ t h'. h')
          (owned-Converted number_key (λ (x : PublicArtifact). x.location) no_public_artifact
            (λ b. b.public_artifacts) id o.delete_public_artifact saves.deletes_public_artifact
            (convert_public_artifact aliases) (enumerate 0 items) w h)

    bottle_saved :
        (b : Bottle) (t : Tables)
        → LinkedWith ds t
        → ((a : PublicArtifact) → Memᴰ a b.public_artifacts → HasData t a.data_id)
        → Post (λ u t. LinkedWith ds t) (LinkedWith ds) (g.save_bottle b t)
    bottle_saved b t h known = Written-Post (LinkedWith ds) _ (saves.saves_bottle b t) h (λ rows v.
        (
          rewritten_bottles (b ∷ []) t rows v
              (λ x a n m.
                known a
                  (subst (λ (z : Bottle). Memᴰ a z.public_artifacts) (Memᴰ.eq_of_singleton n) m))
              h.0,
          h.1,
        ))

    -- What the map leads to is stored as long as the digests stay.
    data_stays :
        (w t : Tables) (aliases : List (Digest × ℕ)) (items : List PublicArtifactDto)
        (news : List PublicArtifact)
        → w.digests ≡ ds
        → t.digests ≡ ds
        → ((a : PublicArtifactDto) → Memᴰ a items → Known g o d saves w aliases a.digest)
        → ArtifactsOf aliases items news
        → (x : PublicArtifact) → Memᴰ x news
        → HasData t x.data_id
    data_stays w t aliases items news e e' known made x m =
        let (a, n, same) = made x m in
        subst (λ z. (y : DigestAlias) × Memᴰ y z × (y.data_id ≡ x.data_id)) (e ∙ sym e')
          (subst (HasData w) (sym same) (known a n))

  -- The digests of the artifacts are known before the rows are written.
  store_bottle-LinkedWith :
      (ds : List DigestAlias) (base : Base) (dto : BottleDto) (sources : List Source)
      (authors : List Author) (metrics : List Metric) (aliases : List (Digest × ℕ)) (w : Tables)
      → LinkedWith ds w
      → ((a : PublicArtifactDto)
          → Memᴰ a dto.public_artifacts
          → Known g o d saves w aliases a.digest)
      → Post
          (λ u t. LinkedWith ds t)
          (LinkedWith ds)
          (store_bottle g d o base dto sources authors metrics aliases w)
  unfolding store_bottle
  store_bottle-LinkedWith ds base dto sources authors metrics aliases w h known =
      let L = LinkedWith ds in
      Post-bind (process_public_artifacts g d o base.id aliases dto.public_artifacts) _ w
        (λ news t. L t × ArtifactsOf ds aliases dto.public_artifacts news) (λ u t. L t) L
        (process_public_artifacts-Known ds base.id aliases dto.public_artifacts w h)
        λ news t1 h1.
          Post-bind (process_labels g d o base.id dto.labels) _ t1 (λ x t. L t) (λ u t. L t) L
            (process_labels-Keeps ds base.id dto.labels t1 h1.0)
            λ labels t2 h2.
              Post-bind (process_annotations g d o base.id dto.annotations) _ t2 (λ x t. L t)
                (λ u t. L t) L (process_annotations-Keeps ds base.id dto.annotations t2 h2)
                λ annotations t3 h3.
                  Post-bind (process_parts g d o base.id dto.parts) _ t3 (λ x t. L t) (λ u t. L t) L
                    (process_parts-Keeps ds base.id dto.parts t3 h3)
                    λ parts t4 h4.
                      bottle_saved ds _ t4 h4
                        (data_stays ds w t4 aliases dto.public_artifacts news h.1 h4.1 known h1.1)

  -- The check on what is missing lets through only a map that knows every artifact.
  after_collect :
      (ds : List DigestAlias) (base : Base) (dto : BottleDto) (sources : List Source)
      (authors : List Author) (metrics : List Metric) (missing : List Digest)
      (aliases : List (Digest × ℕ)) (w : Tables)
      → LinkedWith ds w
      → (missing ≡ []
          → (a : PublicArtifactDto) → Memᴰ a dto.public_artifacts
          → Known g o d saves w aliases a.digest)
      → Post
          (λ u t. LinkedWith ds t)
          (LinkedWith ds)
          ((lift (none_missing g d o missing)
              >> store_bottle g d o base dto sources authors metrics aliases)
            w)
  after_collect ds base dto sources authors metrics [] aliases w h known =
      store_bottle-LinkedWith ds base dto sources authors metrics aliases w h (known refl)
  after_collect ds base dto sources authors metrics (x ∷ xs) aliases w h known = h

  abbrev FoundAll : List PublicArtifactDto → List Digest × List (Digest × ℕ) → Tables → Type 0
  FoundAll items r t =
      r.0 ≡ [] → (a : PublicArtifactDto) → Memᴰ a items → Known g o d saves t r.1 a.digest

  collected :
      (ds : List DigestAlias) (items : List PublicArtifactDto) (w : Tables)
      → LinkedWith ds w
      → Post
          (λ r t. LinkedWith ds t × FoundAll items r t)
          (LinkedWith ds)
          (collect_aliases g d o items [] [] w)
  collected ds items w h =
      Post-weaken (λ r t. (t ≡ w) × FoundAll items r w)
        (λ r t. LinkedWith ds t × FoundAll items r t) (λ t. t ≡ w) (LinkedWith ds)
        (collect_aliases g d o items [] [] w)
        (λ r t (same, found).
          subst (λ z. LinkedWith ds z × FoundAll items r z) (sym same) (h, found))
        (λ t e. subst (LinkedWith ds) (sym e) h) (collect_aliases_all g o d saves items w)

  process_dto-LinkedWith :
      (ds : List DigestAlias) (base : Base) (dto : BottleDto) (w : Tables)
      → LinkedWith ds w
      → Post (λ u t. LinkedWith ds t) (LinkedWith ds) (process_dto g d o base dto w)
  unfolding process_dto
  process_dto-LinkedWith ds base dto w h =
      let L = LinkedWith ds in
      Post-bind (process_sources g d o base.id dto.sources) _ w (λ x t. L t) (λ u t. L t) L
        (process_sources-Keeps ds base.id dto.sources w h)
        λ sources t1 h1.
          Post-bind (process_authors g d o base.id dto.authors) _ t1 (λ x t. L t) (λ u t. L t) L
            (process_authors-Keeps ds base.id dto.authors t1 h1)
            λ authors t2 h2.
              Post-bind (process_metrics g d o base.id dto.metrics) _ t2 (λ x t. L t) (λ u t. L t) L
                (process_metrics-Keeps ds base.id dto.metrics t2 h2)
                λ metrics t3 h3.
                  Post-bind (collect_aliases g d o dto.public_artifacts [] []) _ t3
                    (λ r t. L t × FoundAll dto.public_artifacts r t) (λ u t. L t) L
                    (collected ds dto.public_artifacts t3 h3)
                    λ r t4 h4.
                      after_collect ds base dto sources authors metrics r.0 r.1 t4 h4.0 h4.1

  -- Processing a bottle keeps every foreign key the key of a row, however it ends.
  pub process_bottle-IsLinked : (base : Base) → Keeps IsLinked (process_bottle g d o base)
  unfolding process_bottle
  process_bottle-IsLinked base w h = elim (Result-cases (parse_bottle g d o base)) [
    | inr (x, e) ↦ rw e h
    | inl (dto, parsed) ↦ elim (Result-cases (d.validate_bottle dto)) [
      | inr (x, e) ↦ rw (parsed, e) h
      | inl (u, valid) ↦
          rw (parsed, valid)
            (Post-weaken (λ u t. LinkedWith w.digests t) (λ u t. IsLinked t) (LinkedWith w.digests)
              IsLinked (process_dto g d o base dto w) (λ u t h'. h'.0) (λ t h'. h'.0)
              (process_dto-LinkedWith w.digests base dto w (h, refl)))
    ]
  ]
