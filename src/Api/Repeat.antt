-- ===== src/Api/Repeat.antt =====
-- internal/api/handlers.go: a PUT of an object that is stored and up to date changes nothing.
use data_telemetry.Prelude.{◌≡◌, some, [], ◌∷◌, ◌++◌, ◌==◌, select}
use data_telemetry.Errors.{Digest, Bytes, ok}
use data_telemetry.Db.Models.{Data, DigestAlias, Base, Tables}
use data_telemetry.Db.Gorm.{data_by_canonical, alias_of, first_row, bases}
use data_telemetry.Db.Processors.{Processor}
use data_telemetry.Api.{Config, Server, write_header, canonical_digest}

-- The data of a content, its digest record and its object at the processor's version are stored.
pub record IsStored (c : Config) (p : Processor) (content : Bytes) (d : Digest) (t : Tables)
    : Type 0 where
  pub stored : Data
  pub alias : DigestAlias
  pub object : Base
  pub data_found : data_by_canonical (canonical_digest c d content) t.data_rows ≡ some stored
  pub alias_found : alias_of stored.id d t.digests ≡ some alias
  pub object_found :
      first_row (select (λ b. stored.id == b.data_id) (bases p.primary_table t)) ≡ ok object
  pub current : object.processor_version ≡ p.version

-- The answer to a repeated PUT: 204, and no other change.
abbrev pub answered : Server → Server
answered w = (write_header 204 w).1

-- The digest header that every accepted PUT adds.
abbrev pub with_digest : Digest → Server → Server
with_digest d w = record w {
  response = record w.response { content_digests = w.response.content_digests ++ (d ∷ []) };
}
