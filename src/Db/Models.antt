-- ===== src/Db/Models.antt =====
-- internal/db/models.go: the rows of the database, with the rows that "belong to" or are "owned by"
-- an object inside it. Soft deletion and update times are not modelled. A float64 is kept as its bit
-- pattern, and a selector set as the texts of its selectors.
use data_telemetry.Prelude.{ℕ, String, Bool, List}
use data_telemetry.Errors.{Digest, Bytes}
use data_telemetry.Types.{Time}

abbrev pub Float64 : Type 0
Float64 = ℕ

pub record Data : Type 0 where
  pub id : ℕ
  pub raw_data : Bytes
  pub canonical_digest : Digest

pub record DigestAlias : Type 0 where
  pub id : ℕ
  pub data_id : ℕ
  pub digest : Digest

pub record Base : Type 0 where
  pub id : ℕ
  pub created_at : Time
  pub processor_version : ℕ
  pub content : Data
  pub data_id : ℕ

pub record PublicArtifact : Type 0 where
  pub id : ℕ
  pub location : ℕ
  pub name : String
  pub media_type : String
  pub path : String
  pub data_id : ℕ
  pub digest : Digest

pub record Source : Type 0 where
  pub id : ℕ
  pub location : ℕ
  pub name : String
  pub uri : String
  pub bottle_digest : Digest
  pub part_selectors : List String

pub record Part : Type 0 where
  pub id : ℕ
  pub location : ℕ
  pub name : String
  pub size : ℕ
  pub digest : Digest
  pub labels : List (String × String)

pub record Author : Type 0 where
  pub id : ℕ
  pub location : ℕ
  pub name : String
  pub url : String
  pub email : String

pub record Label : Type 0 where
  pub id : ℕ
  pub key : String
  pub value : String
  pub numeric_value : Float64

pub record Annotation : Type 0 where
  pub id : ℕ
  pub key : String
  pub value : String

pub record Metric : Type 0 where
  pub id : ℕ
  pub location : ℕ
  pub name : String
  pub description : String
  pub value : Float64

pub record Deprecates : Type 0 where
  pub id : ℕ
  pub deprecated_bottle_digest : Digest

pub record Bottle : Type 0 where
  pub base : Base
  pub api_version : String
  pub description : String
  pub authors : List Author
  pub sources : List Source
  pub metrics : List Metric
  pub public_artifacts : List PublicArtifact
  pub labels : List Label
  pub annotations : List Annotation
  pub parts : List Part
  pub deprecates : List Deprecates

pub record Layer : Type 0 where
  pub id : ℕ
  pub location : ℕ
  pub digest : Digest

pub record Manifest : Type 0 where
  pub base : Base
  pub bottle_id : ℕ
  pub bottle_digest : Digest
  pub layers : List Layer

pub record Event : Type 0 where
  pub base : Base
  pub manifest_id : ℕ
  pub manifest_digest : Digest
  pub bottle_id : ℕ
  pub bottle_digest : Digest
  pub action : String
  pub repository : String
  pub tag : String
  pub auth_required : Bool
  pub bandwidth : ℕ
  pub timestamp : Time
  pub username : String

pub record SignatureAnnotation : Type 0 where
  pub key : String
  pub value : String

pub record Signature : Type 0 where
  pub base : Base
  pub manifest_id : ℕ
  pub manifest_digest : Digest
  pub bottle_id : ℕ
  pub bottle_digest : Digest
  pub signature_type : String
  pub signature : Bytes
  pub public_key : String
  pub public_key_finger_print : Digest
  pub annotations : List SignatureAnnotation

pub record Blob : Type 0 where
  pub base : Base

-- The tables of the database, each in the order of its primary key.
pub record Tables : Type 0 where
  pub data_rows : List Data
  pub digests : List DigestAlias
  pub blobs : List Blob
  pub bottles : List Bottle
  pub manifests : List Manifest
  pub events : List Event
  pub signatures : List Signature
