-- ===== src/Api/Linked.antt =====
-- internal/api/handlers.go and api.go: every PUT keeps the foreign keys.
use data_telemetry.Prelude.{
  ℕ, ◌≡◌, refl, sym, str_eq, String, Option, none, some, List, [], ◌∷◌, ◌==◌, Memᴰ, Bool-cases, inl,
  inr,
}
use mathlib.Core.List.Memᴰ
use mathlib.Core.Path.{subst}
use mathlib.Core.Option.{some-injective}
use data_telemetry.Errors.{Digest, Bytes, Result, as_http}
use data_telemetry.Action.Ensures.{Post, Post-bind, Post-lift, Post_world, Keeps}
use data_telemetry.Types.{Time}
use data_telemetry.Types.Documents.{Rules}
use data_telemetry.Signatures.{Crypto}
use data_telemetry.Db.Models.{Data, DigestAlias, Base, Tables}
use data_telemetry.Db.Gorm.{
  Gorm, IsDocumented, data_by_canonical, DataOutcome, DigestOutcome, ReadOutcome,
}
use data_telemetry.Db.Documents.{Documents, Deletes}
use data_telemetry.Db.Processors.{Processor, blob_processor}
use data_telemetry.Db.Processors.Manifests.{manifest_processor}
use data_telemetry.Db.Processors.Events.{event_processor}
use data_telemetry.Db.Processors.Signed.{signature_processor}
use data_telemetry.Db.Processors.Bottles.{bottle_processor}
use data_telemetry.Db.Processors.Linked.{IsLinked, HasContent, IsSaving}
use data_telemetry.Db.Processors.Linked.Rewriting.{Written-Post}
use data_telemetry.Db.Processors.Linked.Manifests.{process_manifest-IsLinked}
use data_telemetry.Db.Processors.Linked.Events.{process_event-IsLinked}
use data_telemetry.Db.Processors.Linked.Signed.{process_signatures-IsLinked}
use data_telemetry.Db.Processors.Linked.Bottles.{process_bottle-IsLinked}
use data_telemetry.Api.{
  Config, Request, Server, db, write_header, parse_data_put_params, canonical_digest, find_base,
  process_current, process_object, store_data, generic_put_data, no_base,
}
use data_telemetry.Api.Steps.{Post-db}
use data_telemetry.Api.Integrity.{All}
use data_telemetry.Api.Routes.{processors}

data_by_canonical-Memᴰ :
    (k : Digest) (xs : List Data) (x : Data) → data_by_canonical k xs ≡ some x → Memᴰ x xs
data_by_canonical-Memᴰ k [] x h = cc
data_by_canonical-Memᴰ k (y ∷ xs) x h = elim (Bool-cases (str_eq k y.canonical_digest)) [
  | inl same ↦ Memᴰ.head (sym (some-injective y x (rw same at h)))
  | inr other ↦ Memᴰ.tail (data_by_canonical-Memᴰ k xs x (rw other at h))
]

data_kept :
    (k : Digest) (content : Bytes) (s : Tables) (r : Result Data × Tables)
    → DataOutcome k content s r
    → IsLinked s
    → Post (λ x t. IsLinked t × HasContent t x.id) IsLinked r
data_kept k content s r (DataOutcome.failed e) l = l
data_kept k content s r (DataOutcome.found x old) l =
    (l, (x, data_by_canonical-Memᴰ k s.data_rows x old, refl))
data_kept k content s r (DataOutcome.created i new fresh) l = (
  record {
    digest_data = λ a m. let (x, at, e) = l.digest_data a m in (x, Memᴰ.append_left _ at, e);
    manifest_bottle = l.manifest_bottle;
    event_manifest = l.event_manifest;
    event_bottle = l.event_bottle;
    signature_manifest = l.signature_manifest;
    signature_bottle = l.signature_bottle;
    artifact_data = l.artifact_data;
  },
  (_, Memᴰ.append_right s.data_rows (Memᴰ.head refl), refl),
)

digest_kept :
    (i : ℕ) (d : Digest) (s : Tables) (r : Result DigestAlias × Tables)
    → DigestOutcome i d s r
    → HasContent s i
    → IsLinked s
    → Post (λ x t. IsLinked t) IsLinked r
digest_kept i d s r (DigestOutcome.failed e) content l = l
digest_kept i d s r (DigestOutcome.found x old) content l = l
digest_kept i d s r (DigestOutcome.created j new) content l = record {
  digest_data = λ a m. elim (Memᴰ.append_cases s.digests m) [
    | inl old ↦ l.digest_data a old
    | inr new' ↦
        subst (λ (z : DigestAlias). HasContent s z.data_id) (sym (Memᴰ.eq_of_singleton new'))
          content
  ];
  manifest_bottle = l.manifest_bottle;
  event_manifest = l.event_manifest;
  event_bottle = l.event_bottle;
  signature_manifest = l.signature_manifest;
  signature_bottle = l.signature_bottle;
  artifact_data =
      λ b a m n. let (x, at, e) = l.artifact_data b a m n in (x, Memᴰ.append_left _ at, e);
}

read_kept :
    (s : Tables) (r : Result Tables × Tables)
    → ReadOutcome s r
    → IsLinked s
    → Post (λ x t. IsLinked t) IsLinked r
read_kept s r (ReadOutcome.failed e) l = l
read_kept s r ReadOutcome.read_all l = l

module _ (c : Config) (documented : IsDocumented c.gorm) (p : Processor)
    (keeps : (b : Base) → Keeps IsLinked (p.process b)) where
  abbrev Linked : {A : Type 0} → A → Server → Type 0
  Linked a w = IsLinked w.tables

  abbrev L : Server → Type 0
  L w = IsLinked w.tables

  process_current-IsLinked :
      (x : Data) (b : Base) (w : Server) → L w → Post Linked L (process_current c p x b w)
  unfolding process_current
  process_current-IsLinked x b w l =
      let given = record b { processor_version = p.version; content = x; data_id = x.id } in
      Post-bind (db (p.process given)) (λ u. write_header 201) w Linked Linked L
        (Post-db (p.process given) w (λ u t. IsLinked t) IsLinked (keeps given w.tables l))
        (λ u w' h. h)

  process_object-IsLinked :
      (x : Data) (found : Option Base) (w : Server)
      → L w
      → Post Linked L (process_object c p x found w)
  unfolding process_object
  process_object-IsLinked x none w l = process_current-IsLinked x no_base w l
  process_object-IsLinked x (some b) w l = elim (Bool-cases (b.processor_version == p.version)) [
    | inl same ↦ rw same l
    | inr other ↦ rw other (process_current-IsLinked x b (write_header 204 w).1 l)
  ]

  find_base-IsLinked :
      (table : String) (i : ℕ) (t : Tables)
      → IsLinked t
      → Post (λ found. IsLinked) IsLinked (find_base c table i t)
  unfolding find_base
  find_base-IsLinked table i t l =
      Post-bind c.gorm.read _ t (λ rows. IsLinked) (λ found. IsLinked) IsLinked
        (read_kept t (c.gorm.read t) (documented.reads t) l) (λ rows t' h. h)

  store_data-IsLinked :
      (content : Bytes) (d : Digest) (w : Server) → L w → Post Linked L (store_data c p content d w)
  unfolding store_data
  store_data-IsLinked content d w l =
      let key = canonical_digest c d content in
      Post-bind (db (c.gorm.first_or_create_data key content)) _ w
        (λ x w'. L w' × HasContent w'.tables x.id) Linked L
        (Post-db (c.gorm.first_or_create_data key content) w (λ x t. IsLinked t × HasContent t x.id)
          IsLinked
          (data_kept key content w.tables _ (documented.data_outcome key content w.tables) l))
        λ x w1 h1.
          Post-bind (db (c.gorm.first_or_create_digest x.id d)) _ w1 Linked Linked L
            (Post-db (c.gorm.first_or_create_digest x.id d) w1 (λ x t. IsLinked t) IsLinked
              (digest_kept x.id d w1.tables _ (documented.digest_outcome x.id d w1.tables) h1.1
                h1.0))
            λ y w2 h2.
              Post-bind (db (find_base c p.primary_table x.id)) _ w2 Linked Linked L
                (Post-db (find_base c p.primary_table x.id) w2 (λ x t. IsLinked t) IsLinked
                  (find_base-IsLinked p.primary_table x.id w2.tables h2))
                λ found w3 h3. process_object-IsLinked x found w3 h3

  put-IsLinked : (req : Request) (w : Server) → L w → L (generic_put_data c p req w).1
  unfolding generic_put_data
  put-IsLinked req w l = Post_world L (generic_put_data c p req w) (
      Post-lift (as_http 400 "Unable to read the body" req.body) _ w Linked L l λ content read.
        Post-lift (parse_data_put_params c content req) _ w Linked L l
          λ d parsed. store_data-IsLinked content d _ l)

of_All : {A : Type 0} (P : A → Type 0) (xs : List A) (x : A) → All P xs → Memᴰ x xs → P x
of_All P [] x a m = absurd (Memᴰ.not-nil m)
of_All P (y ∷ xs) x a m = elim (Memᴰ.cases_cons m) [
  | inl e ↦ subst P (sym e) a.0
  | inr rest ↦ of_All P xs x a.1 rest
]

blob_saved :
    (g : Gorm) (o : Deletes) (saves : IsSaving g o) (b : Base)
    → Keeps IsLinked ((blob_processor g).process b)
unfolding blob_processor
blob_saved g o saves b w l =
    Written-Post IsLinked _ (saves.saves_blob (record { base = b }) w) l (λ rows v. record {
      digest_data = l.digest_data;
      manifest_bottle = l.manifest_bottle;
      event_manifest = l.event_manifest;
      event_bottle = l.event_bottle;
      signature_manifest = l.signature_manifest;
      signature_bottle = l.signature_bottle;
      artifact_data = l.artifact_data;
    })

-- Each processor of the server keeps the foreign keys.
processors-Keeps :
    {Key Envelope Verifier : Type 0} (c : Crypto Key Envelope Verifier) (g : Gorm) (d : Documents)
    (o : Deletes) (r : Rules) (now : Time)
    → IsSaving g o
    → All (λ (p : Processor). (b : Base) → Keeps IsLinked (p.process b)) (processors c g d o r now)
unfolding processors manifest_processor event_processor signature_processor bottle_processor
processors-Keeps c g d o r now saves = (
  blob_saved g o saves,
  (
    process_bottle-IsLinked g o d saves,
    (
      λ b. process_manifest-IsLinked g o d b saves,
      (
        λ b. process_event-IsLinked g o d r now b saves,
        (λ b. process_signatures-IsLinked c g o d r b saves, tt),
      ),
    ),
  ),
)

-- A PUT of an object of any of the five types keeps these keys those of rows: the data of a digest
-- record, the bottle of a manifest, and the manifest and the bottle of an event and of a signature;
-- and it keeps the data of a public artifact that of a digest record. It does so whether it
-- succeeds or fails, at whatever step; gorm reads, creates, saves and deletes rows as documented.
pub generic_put_data-IsLinked :
    {Key Envelope Verifier : Type 0} (c : Config) (crypto : Crypto Key Envelope Verifier)
    (d : Documents) (o : Deletes) (r : Rules) (now : Time) (p : Processor) (req : Request)
    (w : Server)
    → IsDocumented c.gorm
    → IsSaving c.gorm o
    → Memᴰ p (processors crypto c.gorm d o r now)
    → IsLinked w.tables
    → IsLinked (generic_put_data c p req w).1.tables
generic_put_data-IsLinked c crypto d o r now p req w documented saves known l =
    put-IsLinked c documented p
      (of_All (λ (p : Processor). (b : Base) → Keeps IsLinked (p.process b))
        (processors crypto c.gorm d o r now) p (processors-Keeps crypto c.gorm d o r now saves)
        known)
      req w l
