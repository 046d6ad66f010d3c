-- ===== src/Tests/Reprocessing.antt =====
-- An example for `Reprocess` (internal/db/processor.go): two of three blobs are of an older version.
use data_telemetry.Prelude.{ℕ, ◌≡◌, refl, [], ◌∷◌, arith, if◌then◌else◌}
use data_telemetry.Errors.{message, ok}
use data_telemetry.Action.{pure, raise}
use data_telemetry.Action.Returns.{Returns}
use data_telemetry.Db.Models.{Data, Blob, Tables}
use data_telemetry.Db.Gorm.{Gorm}
use data_telemetry.Db.Processors.{loaded, blob_processor, reprocess}
use data_telemetry.Db.Processors.Reprocessed.{has_id, replaced, IsUp, reprocess-brought_up}

abbrev gorm : Gorm
gorm = record {
  read = λ s. (ok s, s);
  first_or_create_data = λ c raw. raise (message "not used");
  first_or_create_digest = λ i d. raise (message "not used");
  save_blob = λ x s. (
    ok tt,
    record s { blobs = if has_id x.base.id s.blobs then replaced x s.blobs else x ∷ s.blobs },
  );
  save_bottle = λ x. pure tt;
  save_manifest = λ x. pure tt;
  save_event = λ x. pure tt;
  save_signature = λ x. pure tt;
}

gorm-IsUp : IsUp gorm
gorm-IsUp = record { reads = λ s. refl; saves = λ x s h. rw h refl }

abbrev data_row : ℕ → Data
data_row i = record { id = i; raw_data = i ∷ []; canonical_digest = "sha256:" }

abbrev blob : ℕ → ℕ → Blob
blob i version = record {
  base = record {
    id = i;
    created_at = i;
    processor_version = version;
    content = data_row i;
    data_id = i;
  };
}

abbrev tables : ℕ → ℕ → ℕ → Tables
tables a b c = record {
  data_rows = data_row 1 ∷ data_row 2 ∷ data_row 3 ∷ [];
  digests = [];
  blobs = blob 1 a ∷ blob 2 b ∷ blob 3 c ∷ [];
  bottles = [];
  manifests = [];
  events = [];
  signatures = [];
}

reprocess-brought_up_example :
    Returns (reprocess gorm (blob_processor gorm) 3) (tables 1 3 2) tt (λ t'. t' ≡ tables 3 3 3)
unfolding loaded
reprocess-brought_up_example =
    reprocess-brought_up gorm gorm-IsUp 3 (tables 1 3 2) (refl, (refl, (refl, tt))) (omega arith)
