-- ===== src/Types.antt =====
-- The types of the REST interface (pkg/types/types.go) and the operations of go-digest that the
-- program calls, which are a parameter.
pub mod Listing
pub mod Documents
use data_telemetry.Prelude.{ℕ, String, Bool, Option, List, [], ◌∷◌}
use data_telemetry.Errors.{Digest, Algorithm, Bytes}

-- Instants, in nanoseconds since the zero time.
abbrev pub Time : Type 0
Time = ℕ

pub record LocationResponse : Type 0 where
  pub repository : String
  pub auth_required : Bool
  pub digest : Digest

pub record ListResultEntry : Type 0 where
  pub created_at : Time
  pub digests : List Digest
  pub content : Bytes

pub record SearchResult : Type 0 where
  pub digests : List Digest
  pub content : Bytes

abbrev pub topological_ordering_of_types : List String
topological_ordering_of_types = "blob" ∷ "bottle" ∷ "manifest" ∷ "event" ∷ "signature" ∷ []

-- github.com/opencontainers/go-digest: `Parse`, `Digest.Algorithm`, `Digest.Encoded`,
-- `Algorithm.Available` and `Algorithm.FromBytes`.
pub record Digester : Type 0 where
  pub parse : String → Option Digest
  pub algorithm : Digest → Algorithm
  pub encoded : Digest → String
  pub available : Algorithm → Bool
  pub from_bytes : Algorithm → Bytes → Digest
