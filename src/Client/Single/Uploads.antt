-- ===== src/Client/Single/Uploads.antt =====
-- The `Send` methods against a server that accepts an object once it holds what the object refers
-- to: they leave the server with the object and with all that was missing.
use data_telemetry.Prelude.{String, ◌≡◌, Bool, true, some, List, [], ◌∷◌, if◌then◌else◌}
use data_telemetry.Errors.{Digest, Algorithm, Bytes, GoError, as_missing, ok, fail}
use data_telemetry.Action.{Action}
use data_telemetry.Action.Returns.{Returns}
use data_telemetry.Client.{GetArtifactData}
use data_telemetry.Client.Requests.{Url, Http, do_put_request}
use data_telemetry.Client.Single.Holdings.{Holdings, add, add_all, lacking}

-- How the server answers a PUT of an object that it finds well-formed.
pub record Accepts {W : Type 0} (h : Http W) (u : Url) (token : String) : Type 0 where
  pub holds : W → Holdings
  pub needs : String → Bytes → List Digest
  pub well_formed : String → Bytes → Bool
  pub accepted :
      (t : String) (alg : Algorithm) (x : Bytes) (w : W)
      → well_formed t x ≡ true
      → lacking (holds w) (needs t x) ≡ []
      → Returns
          (do_put_request h u t x alg token)
          w
          tt
          (λ w'. holds w' ≡ add (h.digester.from_bytes alg x) (holds w))
  pub refused :
      (t : String) (alg : Algorithm) (x : Bytes) (w : W) (d : Digest) (ds : List Digest)
      → well_formed t x ≡ true
      → lacking (holds w) (needs t x) ≡ d ∷ ds
      → (e : GoError) × ((do_put_request h u t x alg token w).0 ≡ fail e)
        × (as_missing e ≡ some (d ∷ ds))
        × (holds (do_put_request h u t x alg token w).1 ≡ holds w)

module _ {W : Type 0} (h : Http W) (u : Url) (token : String) (S : Accepts h u token)
    (get : GetArtifactData) where
  abbrev Holds : Holdings → W → Type 0
  Holds s w = S.holds w ≡ s

  -- Each digest of a list names a blob that the caller can supply.
  abbrev pub Supplied : List Digest → Type 0
  Supplied [] = Unit
  Supplied (d ∷ ds) =
      ((x : Bytes) × (get d ≡ ok x)
        × (S.well_formed "blob" x ≡ true)
        × (S.needs "blob" x ≡ [])
        × (h.digester.from_bytes (h.digester.algorithm d) x ≡ d))
      × Supplied ds

  module _ (bottle : Bytes) (good : S.well_formed "bottle" bottle ≡ true)
      (supplied : Supplied (S.needs "bottle" bottle)) where
    -- The holdings after a bottle was sent: the bottle, and the artifacts that were lacking.
    unfoldable pub with_bottle : Algorithm → Holdings → Holdings
    with_bottle alg s =
        add (h.digester.from_bytes alg bottle) (add_all (lacking s (S.needs "bottle" bottle)) s)

    module _ (manifest : Bytes) (manifest_good : S.well_formed "manifest" manifest ≡ true)
        (bottle_digest : Digest) (names_bottle : S.needs "manifest" manifest ≡ bottle_digest ∷ [])
        (bottle_named : h.digester.from_bytes (h.digester.algorithm bottle_digest) bottle
          ≡ bottle_digest) where
      -- The holdings after a manifest was sent: the bottle is sent only if it is lacking.
      unfoldable pub with_manifest : Algorithm → Holdings → Holdings
      with_manifest alg s =
          add (h.digester.from_bytes alg manifest)
            (if s bottle_digest then s else with_bottle (h.digester.algorithm bottle_digest) s)

      module _ (event : Bytes) (event_good : S.well_formed "event" event ≡ true)
          (manifest_digest : Digest) (names_manifest : S.needs "event" event ≡ manifest_digest ∷ [])
          (manifest_named : h.digester.from_bytes (h.digester.algorithm manifest_digest) manifest
            ≡ manifest_digest) where
        -- The holdings after an event was sent: the manifest is sent only if it is lacking.
        unfoldable pub with_event : Algorithm → Holdings → Holdings
        with_event alg s = add (h.digester.from_bytes alg event) (
            if s manifest_digest then s else with_manifest (h.digester.algorithm manifest_digest) s)
