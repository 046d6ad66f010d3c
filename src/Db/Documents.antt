-- ===== src/Db/Documents.antt =====
-- The documents that clients send, as the processors of internal/db decode them, and what the
-- processors call outside the repository, as parameters: JSON, the bottle schema and its validation,
-- go-digest, base64, floats, and the libraries of signatures.
use data_telemetry.Prelude.{ℕ, String, List}
use data_telemetry.Errors.{Digest, Bytes, Result, Status}
use data_telemetry.Types.Documents.{Descriptor, EventDto, SignaturesSummary}
use data_telemetry.Db.Models.{
  Float64, Source, Part, Author, Label, Annotation, Metric, PublicArtifact, Layer,
}
use data_telemetry.Action.{Action}
use data_telemetry.Db.Models.{Tables}

-- ocispec.Manifest
pub record OciManifest : Type 0 where
  pub media_type : String
  pub config : Descriptor
  pub layers : List Descriptor

-- The bottle of the schema (data.act3-ace.io/v1), as far as it is read.
pub record SourceDto : Type 0 where
  pub name : String
  pub uri : String

pub record AuthorDto : Type 0 where
  pub name : String
  pub url : String
  pub email : String

pub record MetricDto : Type 0 where
  pub name : String
  pub description : String
  pub value : String

pub record PublicArtifactDto : Type 0 where
  pub name : String
  pub media_type : String
  pub path : String
  pub digest : Digest

pub record PartDto : Type 0 where
  pub name : String
  pub size : ℕ
  pub digest : Digest
  pub labels : List (String × String)

pub record BottleDto : Type 0 where
  pub api_version : String
  pub description : String
  pub sources : List SourceDto
  pub authors : List AuthorDto
  pub metrics : List MetricDto
  pub public_artifacts : List PublicArtifactDto
  pub labels : List (String × String)
  pub annotations : List (String × String)
  pub deprecates : List Digest
  pub parts : List PartDto

pub record Documents : Type 0 where
  pub parse_manifest : Bytes → Result OciManifest
  pub parse_event : Bytes → Result EventDto
  pub parse_signatures : Bytes → Result SignaturesSummary
  -- runtime.DecodeInto, with the conversion to the latest schema
  pub parse_bottle : Bytes → Result BottleDto
  pub validate_manifest : OciManifest → Status
  pub validate_bottle : BottleDto → Status
  pub validate_digest : Digest → Status
  -- util.ParseSourceURI
  pub parse_source_uri : String → Result (Digest × List String)
  pub parse_float : String → Result Float64
  pub decode_base64 : String → Result Bytes
  -- digest.FromString and digest.NewDigestFromEncoded(digest.SHA256, ...)
  pub digest_of_string : String → Digest
  pub sha256_digest : String → Digest

-- Deletion of the rows that an object owns.
pub record Deletes : Type 0 where
  pub delete_source : Source → Action Tables (Unit {0})
  pub delete_author : Author → Action Tables (Unit {0})
  pub delete_metric : Metric → Action Tables (Unit {0})
  pub delete_public_artifact : PublicArtifact → Action Tables (Unit {0})
  pub delete_label : Label → Action Tables (Unit {0})
  pub delete_annotation : Annotation → Action Tables (Unit {0})
  pub delete_part : Part → Action Tables (Unit {0})
  pub delete_layer : Layer → Action Tables (Unit {0})
