-- ===== src/Client/Single/Attempts.antt =====
-- What each `Send` method does next, by the answer to its first PUT.
use data_telemetry.Prelude.{String, ◌≡◌, some, List, [], ◌∷◌, arith}
use data_telemetry.Errors.{Digest, Algorithm, Bytes, GoError, as_missing, ok, fail}
use data_telemetry.Action.{labelled, ◌>>◌}
use data_telemetry.Client.{GetArtifactData}
use data_telemetry.Client.Requests.{Url, Http}
use data_telemetry.Client.Single.{put, send_artifacts, send_bottle, send_manifest, send_event}

module _ {W : Type 0} (h : Http W) (u : Url) (token : String) where
  pub send_bottle_accepted :
      (alg : Algorithm) (bottle : Bytes) (get : GetArtifactData) (w : W)
      → (put h u token "bottle" alg bottle w).0 ≡ ok tt
      → send_bottle h u token alg bottle get w ≡ put h u token "bottle" alg bottle w
  unfolding send_bottle
  send_bottle_accepted alg bottle get w e = ground (arith, e)

  pub send_bottle_refused :
      (alg : Algorithm) (bottle : Bytes) (get : GetArtifactData) (w : W) {e : GoError}
      {ds : List Digest}
      → (put h u token "bottle" alg bottle w).0 ≡ fail e
      → as_missing e ≡ some ds
      → send_bottle h u token alg bottle get w
        ≡ (send_artifacts h u token ds get
              >> labelled "failed to re-push bottle" (put h u token "bottle" alg bottle))
            (put h u token "bottle" alg bottle w).1
  unfolding send_bottle
  send_bottle_refused alg bottle get w e m = ground (arith, e, m)

  pub send_manifest_accepted :
      (alg : Algorithm) (manifest bottle : Bytes) (get : GetArtifactData) (w : W)
      → (put h u token "manifest" alg manifest w).0 ≡ ok tt
      → send_manifest h u token alg manifest bottle get w ≡ put h u token "manifest" alg manifest w
  unfolding send_manifest
  send_manifest_accepted alg manifest bottle get w e = ground (arith, e)

  pub send_manifest_refused :
      (alg : Algorithm) (manifest bottle : Bytes) (get : GetArtifactData) (w : W) {e : GoError}
      {d : Digest}
      → (put h u token "manifest" alg manifest w).0 ≡ fail e
      → as_missing e ≡ some (d ∷ [])
      → send_manifest h u token alg manifest bottle get w
        ≡ (send_bottle h u token (h.digester.algorithm d) bottle get
              >> labelled "failed to re-push manifest" (put h u token "manifest" alg manifest))
            (put h u token "manifest" alg manifest w).1
  unfolding send_manifest
  send_manifest_refused alg manifest bottle get w e m = ground (arith, e, m)

  pub send_event_accepted :
      (alg : Algorithm) (event manifest bottle : Bytes) (get : GetArtifactData) (w : W)
      → (put h u token "event" alg event w).0 ≡ ok tt
      → send_event h u token alg event manifest bottle get w ≡ put h u token "event" alg event w
  unfolding send_event
  send_event_accepted alg event manifest bottle get w e = ground (arith, e)

  pub send_event_refused :
      (alg : Algorithm) (event manifest bottle : Bytes) (get : GetArtifactData) (w : W)
      {e : GoError} {d : Digest}
      → (put h u token "event" alg event w).0 ≡ fail e
      → as_missing e ≡ some (d ∷ [])
      → send_event h u token alg event manifest bottle get w
        ≡ (labelled "failed to send manifest to server"
                (send_manifest h u token (h.digester.algorithm d) manifest bottle get)
              >> labelled "failed to re-push event to server" (put h u token "event" alg event))
            (put h u token "event" alg event w).1
  unfolding send_event
  send_event_refused alg event manifest bottle get w e m = ground (arith, e, m)
