-- ===== src/Db/Processors.antt =====
-- internal/db/processor.go and blob_processor.go: processors of object types, and `Reprocess`, which
-- processes the objects of a table that an older version processed. Its loop takes fuel, a round an
-- object. Which of the old objects the database takes first is open; here it is the first of the table.
pub mod Reprocessed
pub mod Manifests
pub mod Events
pub mod Signed
pub mod Bottles
pub mod Linked
pub mod Dependencies
use data_telemetry.Prelude.{ℕ, zero, suc, String, Option, none, some, List, [], ◌∷◌, ltb, select}
use data_telemetry.Errors.{Digest, GoError, record_not_found, still_running, Result, ok, fail}
use data_telemetry.Db.Scopes.{filter_by_digests}
use data_telemetry.Action.{Action, pure, raise, ◌>>=◌, ◌>>◌}
use data_telemetry.Db.Models.{Data, Base, Blob, Tables}
use data_telemetry.Db.Gorm.{Gorm, first_row, bases, data_by_id}

pub record Processor : Type 0 where
  pub primary_table : String
  pub version : ℕ
  pub process : Base → Action Tables (Unit {0})

-- `if errors.Is(err, gorm.ErrRecordNotFound) { return missing }; return err`
abbrev pub found_or {ℓ} : {A : Type ℓ} → GoError → Result A → Result A
found_or missing (ok a) = ok a
found_or missing (fail record_not_found) = fail missing
found_or missing (fail e) = fail e

-- The first row of a table whose data has the digest: `Scopes(FilterByDigest(...))` and `First`.
unfoldable pub first_named : {Row : Type 0} → (Row → Base) → Digest → Tables → List Row → Result Row
unfolding filter_by_digests
first_named base d t rows =
    first_row (filter_by_digests (λ r. (base r).data_id) (d ∷ []) t.digests rows)

-- Preload("Data") of one row; without data, the zero value.
unfoldable pub loaded : List Data → Base → Data
loaded rows b = elim (data_by_id b.data_id rows) [
  | some x ↦ x
  | none ↦ record { id = 0; raw_data = []; canonical_digest = "" }
]

module _ (g : Gorm) where
  unfoldable pub blob_processor : Processor
  blob_processor = record {
    primary_table = "blobs";
    version = 3;
    process = λ b. g.save_blob (record { base = b });
  }

  -- A round of the loop, with the row that `Take` found; without one the loop ends.
  abbrev pub reprocess_row :
      Processor → Action Tables (Unit {0}) → Tables → Result Base → Action Tables (Unit {0})
  reprocess_row p again rows (fail e) = pure tt
  reprocess_row p again rows (ok b) =
      p.process (record b { content = loaded rows.data_rows b; processor_version = p.version })
      >> again

  unfoldable pub reprocess : Processor → ℕ → Action Tables (Unit {0})
  reprocess p zero = raise still_running
  reprocess p (suc fuel) =
      let again = reprocess p fuel in
      g.read >>= λ rows.
      reprocess_row p again rows
        (first_row (select (λ b. ltb b.processor_version p.version) (bases p.primary_table rows)))
