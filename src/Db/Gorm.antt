-- ===== src/Db/Gorm.antt =====
-- What the server asks of its database through gorm, as a parameter, and the documented behaviour
-- that the theorems rely on. A query reads the tables and computes its rows from them.
use mathlib.Core.List.{map}
use data_telemetry.Prelude.{
  ℕ, String, ◌≡◌, ◌&&◌, Option, none, some, List, [], ◌∷◌, ◌++◌, str_eq, ◌==◌, if◌then◌else◌,
}
use data_telemetry.Errors.{Digest, Bytes, GoError, record_not_found, Result, ok, fail}
use data_telemetry.Action.{Action}
use data_telemetry.Db.Models.{
  Data, DigestAlias, Base, Blob, Bottle, Manifest, Event, Signature, Tables,
}

pub record Gorm : Type 0 where
  -- a consistent read of the tables that a query names
  pub read : Action Tables Tables
  -- con.Where(Data{CanonicalDigest: c}).Attrs(Data{RawData: raw}).FirstOrCreate
  pub first_or_create_data : Digest → Bytes → Action Tables Data
  -- con.Where(Digest{DataID: id, Digest: d}).FirstOrCreate
  pub first_or_create_digest : ℕ → Digest → Action Tables DigestAlias
  -- Save, with FullSaveAssociations for bottles, manifests and signatures
  pub save_blob : Blob → Action Tables (Unit {0})
  pub save_bottle : Bottle → Action Tables (Unit {0})
  pub save_manifest : Manifest → Action Tables (Unit {0})
  pub save_event : Event → Action Tables (Unit {0})
  pub save_signature : Signature → Action Tables (Unit {0})

-- `tx.First`: the first row of a query, or ErrRecordNotFound.
abbrev pub first_row : {A : Type 0} → List A → Result A
first_row [] = fail record_not_found
first_row (x ∷ xs) = ok x

-- The base columns of the rows of a table.
unfoldable pub bases : String → Tables → List Base
bases table t =
    if str_eq table "blobs"
    then map (λ (x : Blob). x.base) t.blobs
    else if str_eq table "bottles"
    then map (λ (x : Bottle). x.base) t.bottles
    else if str_eq table "manifests"
    then map (λ (x : Manifest). x.base) t.manifests
    else if str_eq table "events"
    then map (λ (x : Event). x.base) t.events
    else if str_eq table "signatures"
    then map (λ (x : Signature). x.base) t.signatures
    else []

abbrev pub data_by_canonical : Digest → List Data → Option Data
data_by_canonical c [] = none
data_by_canonical c (x ∷ xs) =
    if str_eq c x.canonical_digest then some x else data_by_canonical c xs

abbrev pub data_by_id : ℕ → List Data → Option Data
data_by_id i [] = none
data_by_id i (x ∷ xs) = if i == x.id then some x else data_by_id i xs

abbrev pub alias_of : ℕ → Digest → List DigestAlias → Option DigestAlias
alias_of i d [] = none
alias_of i d (x ∷ xs) = if (i == x.data_id) && str_eq d x.digest then some x else alias_of i d xs

-- The documented outcomes of FirstOrCreate on `data`: a failure, the record that is there, or a new
-- record with a fresh primary key.
pub data DataOutcome (c : Digest) (raw : Bytes) (s : Tables) : Result Data × Tables → Type 0 where
  failed : (e : GoError) → DataOutcome c raw s (fail e, s)
  found : (x : Data) → data_by_canonical c s.data_rows ≡ some x → DataOutcome c raw s (ok x, s)
  created :
      (i : ℕ)
      → data_by_canonical c s.data_rows ≡ none
      → data_by_id i s.data_rows ≡ none
      → DataOutcome c raw s (
        ok (record { id = i; raw_data = raw; canonical_digest = c }),
        record s {
          data_rows = s.data_rows ++ (record { id = i; raw_data = raw; canonical_digest = c } ∷ []);
        },
      )

pub data DigestOutcome (i : ℕ) (d : Digest) (s : Tables)
    : Result DigestAlias × Tables → Type 0 where
  failed : (e : GoError) → DigestOutcome i d s (fail e, s)
  found : (x : DigestAlias) → alias_of i d s.digests ≡ some x → DigestOutcome i d s (ok x, s)
  created :
      (j : ℕ)
      → alias_of i d s.digests ≡ none
      → DigestOutcome i d s (
        ok (record { id = j; data_id = i; digest = d }),
        record s { digests = s.digests ++ (record { id = j; data_id = i; digest = d } ∷ []) },
      )

pub data ReadOutcome (s : Tables) : Result Tables × Tables → Type 0 where
  failed : (e : GoError) → ReadOutcome s (fail e, s)
  read_all : ReadOutcome s (ok s, s)

pub record IsDocumented (g : Gorm) : Type 0 where
  pub reads : (s : Tables) → ReadOutcome s (g.read s)
  pub data_outcome :
      (c : Digest) (raw : Bytes) (s : Tables) → DataOutcome c raw s (g.first_or_create_data c raw s)
  pub digest_outcome :
      (i : ℕ) (d : Digest) (s : Tables) → DigestOutcome i d s (g.first_or_create_digest i d s)
