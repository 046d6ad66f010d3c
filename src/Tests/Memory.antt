-- ===== src/Tests/Memory.antt =====
-- A small digest package, and a database in memory that adds a row for whatever it is given.
use data_telemetry.Prelude.{
  ℕ, suc, ◌+◌, ◌<◌, ◌≡◌, refl, Option, some, none, List, [], ◌∷◌, ◌++◌, arith, str_eq, Memᴰ, inl,
  inr,
}
use mathlib.Core.List.Memᴰ
use data_telemetry.Errors.{Digest, Bytes, Result, ok}
use data_telemetry.Action.{Action}
use data_telemetry.Types.{Digester}
use data_telemetry.Db.Models.{Data, DigestAlias, Bottle, Tables}
use data_telemetry.Db.Gorm.{
  Gorm, data_by_canonical, data_by_id, alias_of, DataOutcome, DigestOutcome, ReadOutcome,
  IsDocumented,
}
use data_telemetry.Db.Documents.{Deletes}
use data_telemetry.Db.Processors.Linked.{
  Rewrites, Written, SameArtifacts, BottlesRewrites, IsSaving,
}

abbrev pub length_digest : Bytes → Digest
length_digest [] = "sha256:"
length_digest (x ∷ xs) = "sha256:1"

abbrev pub digester : Digester
digester = record {
  parse = λ s. some s;
  algorithm = λ d. "sha256";
  encoded = λ d. d;
  available = λ alg. str_eq alg "sha256";
  from_bytes = λ alg x. length_digest x;
}

-- A key above all that are in use.
abbrev total_id : List Data → ℕ
total_id [] = 0
total_id (x ∷ xs) = x.id + total_id xs

fresh_id : (i : ℕ) (xs : List Data) → total_id xs < i → data_by_id i xs ≡ none
fresh_id i [] h = refl
fresh_id i (x ∷ xs) h = ground (arith, fresh_id i xs)

abbrev create_data : Digest → Bytes → Tables → Option Data → Result Data × Tables
create_data c raw s (some x) = (ok x, s)
create_data c raw s none =
    let x : Data = record {
      id = suc (total_id s.data_rows);
      raw_data = raw;
      canonical_digest = c;
    } in
    (ok x, record s { data_rows = s.data_rows ++ (x ∷ []) })

abbrev create_digest : ℕ → Digest → Tables → Option DigestAlias → Result DigestAlias × Tables
create_digest i d s (some x) = (ok x, s)
create_digest i d s none =
    let x : DigestAlias = record { id = 1; data_id = i; digest = d } in
    (ok x, record s { digests = s.digests ++ (x ∷ []) })

abbrev pub gorm : Gorm
gorm = record {
  read = λ s. (ok s, s);
  first_or_create_data = λ c raw s. create_data c raw s (data_by_canonical c s.data_rows);
  first_or_create_digest = λ i d s. create_digest i d s (alias_of i d s.digests);
  save_blob = λ x s. (ok tt, record s { blobs = s.blobs ++ (x ∷ []) });
  save_bottle = λ x s. (ok tt, record s { bottles = s.bottles ++ (x ∷ []) });
  save_manifest = λ x s. (ok tt, record s { manifests = s.manifests ++ (x ∷ []) });
  save_event = λ x s. (ok tt, record s { events = s.events ++ (x ∷ []) });
  save_signature = λ x s. (ok tt, record s { signatures = s.signatures ++ (x ∷ []) });
}

created_data :
    (c : Digest) (raw : Bytes) (s : Tables) (o : Option Data)
    → data_by_canonical c s.data_rows ≡ o
    → DataOutcome c raw s (create_data c raw s o)
created_data c raw s none absent =
    DataOutcome.created (suc (total_id s.data_rows)) absent
      (fresh_id (suc (total_id s.data_rows)) s.data_rows (omega arith))
created_data c raw s (some x) here = DataOutcome.found x here

created_digest :
    (i : ℕ) (d : Digest) (s : Tables) (o : Option DigestAlias)
    → alias_of i d s.digests ≡ o
    → DigestOutcome i d s (create_digest i d s o)
created_digest i d s none absent = DigestOutcome.created 1 absent
created_digest i d s (some x) here = DigestOutcome.found x here

pub gorm-IsDocumented : IsDocumented gorm
gorm-IsDocumented = record {
  reads = λ s. ReadOutcome.read_all;
  data_outcome = λ c raw s. created_data c raw s (data_by_canonical c s.data_rows) refl;
  digest_outcome = λ i d s. created_digest i d s (alias_of i d s.digests) refl;
}

-- The deletions of the example find no row to delete.
abbrev none_deleted : {A : Type 0} → A → Action Tables (Unit {0})
none_deleted x s = (ok tt, record s { bottles = s.bottles })

abbrev pub deletes : Deletes
deletes = record {
  delete_source = none_deleted;
  delete_author = none_deleted;
  delete_metric = none_deleted;
  delete_public_artifact = none_deleted;
  delete_label = none_deleted;
  delete_annotation = none_deleted;
  delete_part = none_deleted;
  delete_layer = λ x s. (ok tt, record s { manifests = s.manifests });
}

module _ {Row : Type 0} (id : Row → ℕ) (Same : Row → Row → Type 0)
    (same : (x : Row) → Same x x) where
  added : (x : Row) (old : List Row) → Rewrites id Same (x ∷ []) old (old ++ (x ∷ []))
  added x old = record {
    kept = λ y m. (y, Memᴰ.append_left (x ∷ []) m, refl);
    known = λ y m. elim (Memᴰ.append_cases old m) [
      | inl n ↦ (y, Memᴰ.tail n, same y)
      | inr n ↦ (y, Memᴰ.head (Memᴰ.eq_of_singleton n), same y)
    ];
  }

  unchanged : (old : List Row) → Rewrites id Same [] old old
  unchanged old = record { kept = λ y m. (y, m, refl); known = λ y m. (y, m, same y) }

no_bottle_deleted : (s : Tables) → BottlesRewrites [] s.bottles s.bottles
no_bottle_deleted s =
    unchanged (λ (b : Bottle). b.base.id) SameArtifacts (λ b a m. (a, m, refl)) s.bottles

pub gorm-IsSaving : IsSaving gorm deletes
gorm-IsSaving = record {
  reads = λ s. ReadOutcome.read_all;
  saves_blob = λ x s. Written.written _ (added _ _ (λ y. refl) x s.blobs);
  saves_bottle = λ b s. Written.written _ (added _ _ (λ y a m. (a, m, refl)) b s.bottles);
  saves_manifest = λ m s. Written.written _ (added _ _ (λ y. refl) m s.manifests);
  saves_event = λ e s. Written.written _ (added _ _ (λ y. (refl, refl)) e s.events);
  saves_signature = λ x s. Written.written _ (added _ _ (λ y. (refl, refl)) x s.signatures);
  deletes_source = λ x s. Written.written s.bottles (no_bottle_deleted s);
  deletes_author = λ x s. Written.written s.bottles (no_bottle_deleted s);
  deletes_metric = λ x s. Written.written s.bottles (no_bottle_deleted s);
  deletes_public_artifact = λ x s. Written.written s.bottles (no_bottle_deleted s);
  deletes_label = λ x s. Written.written s.bottles (no_bottle_deleted s);
  deletes_annotation = λ x s. Written.written s.bottles (no_bottle_deleted s);
  deletes_part = λ x s. Written.written s.bottles (no_bottle_deleted s);
  deletes_layer = λ x s. Written.written s.manifests (unchanged _ _ (λ y. refl) s.manifests);
}
