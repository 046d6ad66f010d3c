-- ===== src/Api/Routes.antt =====
-- internal/api/api.go: the processors of the five object types that the server is set up with.
use data_telemetry.Prelude.{List, [], ◌∷◌}
use data_telemetry.Types.{Time}
use data_telemetry.Types.Documents.{Rules}
use data_telemetry.Signatures.{Crypto}
use data_telemetry.Db.Gorm.{Gorm}
use data_telemetry.Db.Documents.{Documents, Deletes}
use data_telemetry.Db.Processors.{Processor, blob_processor}
use data_telemetry.Db.Processors.Manifests.{manifest_processor}
use data_telemetry.Db.Processors.Events.{event_processor}
use data_telemetry.Db.Processors.Signed.{signature_processor}
use data_telemetry.Db.Processors.Bottles.{bottle_processor}

unfoldable pub processors :
    {Key Envelope Verifier : Type 0}
    → Crypto Key Envelope Verifier
    → Gorm
    → Documents
    → Deletes
    → Rules
    → Time
    → List Processor
processors c g d o r now =
    blob_processor g
    ∷ bottle_processor g d o
    ∷ manifest_processor g d o
    ∷ event_processor g d r now
    ∷ signature_processor c g d r
    ∷ []
