-- ===== src/Client/Transfer/Contract.antt =====
-- pkg/client/requests.go: what a download needs of a server and of a disk, and the records that it writes.
use data_telemetry.Prelude.{
  ℕ, zero, suc, ◌≤◌, false, String, ◌≡◌, List, [], ◌∷◌, ◌++◌, arith, ltb, length, take, Bool-cases,
  inl, inr,
}
use data_telemetry.Errors.{Digest, Bytes}
use data_telemetry.Action.Returns.{Returns}
use data_telemetry.Types.{Time, ListResultEntry}
use data_telemetry.Types.Listing.{after}
use data_telemetry.Client.Requests.{Url, Http, do_list_request}
use data_telemetry.Client.Transfer.{Files, algorithms, filename}

-- What one download needs of the server and of the disk: the objects of the type, in the order in
-- which the server lists them, and the records of the index file; requests are answered by a page
-- of the objects, writes succeed, and neither touches what the other is about.
pub record Serves {W : Type 0} (h : Http W) (fs : Files W) (u : Url) (obj_type token file : String)
    : Type 0 where
  pub served : W → List ListResultEntry
  pub written : W → List (List String)
  pub listed :
      (since : Time) (limit : ℕ) (w : W)
      → Returns
          (do_list_request h u obj_type since limit token)
          w
          (take limit (after since (served w)))
          (λ w'. (served w' ≡ served w) × (written w' ≡ written w))
  pub file_written :
      (path : String) (content : Bytes) (w : W)
      → Returns
          (fs.write_file path content)
          w
          tt
          (λ w'. (served w' ≡ served w) × (written w' ≡ written w))
  pub record_written :
      (record' : List String) (w : W)
      → Returns
          (fs.write_record file record')
          w
          tt
          (λ w'. (served w' ≡ served w) × (written w' ≡ written w ++ (record' ∷ [])))
  pub flushed :
      (w : W) → (served (fs.flush file w) ≡ served w) × (written (fs.flush file w) ≡ written w)

-- Each entry has a digest to name it by.
abbrev pub HasDigests : List ListResultEntry → Type 0
HasDigests [] = Unit
HasDigests (e ∷ es) = ((d : Digest) × (ds : List Digest) × (e.digests ≡ d ∷ ds)) × HasDigests es

pub HasDigests-take : (n : ℕ) (es : List ListResultEntry) → HasDigests es → HasDigests (take n es)
HasDigests-take zero es a = tt
HasDigests-take (suc n) [] a = tt
HasDigests-take (suc n) (e ∷ es) a = (a.0, HasDigests-take n es a.1)

pub HasDigests-after :
    (t : Time) (es : List ListResultEntry) → HasDigests es → HasDigests (after t es)
HasDigests-after t [] a = tt
HasDigests-after t (e ∷ es) a = elim (Bool-cases (ltb t e.created_at)) [
  | inl new ↦ rw new (a.0, HasDigests-after t es a.1)
  | inr old ↦ rw old (HasDigests-after t es a.1)
]

pub length-take_full {ℓ} :
    {A : Type ℓ} (n : ℕ) (xs : List A) → ltb (length (take n xs)) n ≡ false → n ≤ length xs
length-take_full zero xs h = omega arith
length-take_full (suc n) [] h = absurd (ground arith)
length-take_full (suc n) (x ∷ xs) h = omega (arith, length-take_full n xs (ground arith))

module _ {W : Type 0} (h : Http W) (fs : Files W) where
  -- The index record of an entry: its file, named by the first digest, and all algorithms.
  abbrev pub row : List Digest → List String
  row [] = []
  row (d ∷ ds) = filename h fs d ∷ algorithms h fs (d ∷ ds)

  unfoldable pub index_row : ListResultEntry → List String
  index_row e = row e.digests
