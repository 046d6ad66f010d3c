-- ===== src/Client/Requests/Outcomes.antt =====
-- What a PUT returns for each response of the server.
use data_telemetry.Prelude.{
  ◌<◌, String, true, ◌≡◌, ◌≢◌, ◌↔◌, refl, Option, none, some, List, arith, eq_iff,
}
use data_telemetry.Errors.{
  Digest, Algorithm, Bytes, GoError, missing_digests, as_missing, Result, ok, fail,
}
use data_telemetry.Client.Requests.{
  Url, Response, Http, ApiEntry, api_mapper, put_request, put_outcome, do_put_request,
}

module _ {W : Type 0} (h : Http W) where
  module _ (res : Response) (ds : List Digest)
      (unread : (e : GoError) → res.body ≡ fail e → as_missing e ≡ none)
      (undecoded : (b : Bytes) (e : GoError) → h.decode_missing b ≡ fail e → as_missing e ≡ none)
      (unclosed : (e : GoError) → res.close ≡ fail e → as_missing e ≡ none) where
    abbrev ReportsMissing : Type 0
    ReportsMissing = (e : GoError) × (put_outcome h res ≡ fail e) × (as_missing e ≡ some ds)

    abbrev IsProblem : Type 0
    IsProblem =
        (b : Bytes) × (item : String) × (res.status ≡ 412)
        × (res.content_type ≡ h.media_type_problem)
        × (res.body ≡ ok b)
        × (h.decode_missing b ≡ ok (item, ds))

    missing_of_decoded :
        (b : Bytes) (d : Result (String × List Digest))
        → res.body ≡ ok b
        → h.decode_missing b ≡ d
        → ReportsMissing
        → IsProblem
    unfolding put_outcome as_missing
    missing_of_decoded b (fail e') q p (e, f, m) =
        absurd (
          ground
            (arith, unclosed e, undecoded b e' p, eq_iff res.content_type h.media_type_problem))
    missing_of_decoded b (ok (item, found)) q p (e, f, m) = (
      b,
      item,
      ground (arith, unclosed e, eq_iff res.content_type h.media_type_problem),
      ground (arith, unclosed e, eq_iff res.content_type h.media_type_problem),
      q,
      ground (arith, unclosed e, eq_iff res.content_type h.media_type_problem),
    )

    missing_of_body : (r : Result Bytes) → res.body ≡ r → ReportsMissing → IsProblem
    unfolding put_outcome as_missing
    missing_of_body (fail e') q (e, f, m) = absurd (ground (arith, unread e' q, unclosed e))
    missing_of_body (ok b) q reports = missing_of_decoded b (h.decode_missing b) q refl reports

    -- The error of a PUT lists missing digests exactly when the response is a 412 with the media
    -- type of problems whose body decodes to these digests, if the errors of reading, of
    -- decoding and of closing a body are no such lists.
    pub put_outcome-missing : ReportsMissing ↔ IsProblem
    unfolding put_outcome as_missing
    put_outcome-missing = (
      missing_of_body res.body refl,
      λ (b, item, s, c, r, d). (
        missing_digests item ds,
        ground (arith, eq_iff res.content_type h.media_type_problem),
        refl,
      ),
    )

  -- A request of a known type and an available algorithm that was answered with a status below 300 and
  -- a content digest, in a response that closes.
  abbrev pub IsAnswered : Url → String → Bytes → Algorithm → String → W → Type 0
  IsAnswered u t x alg token w =
      (entry : ApiEntry) × (res : Response) × (api_mapper h t ≡ some entry)
      × (h.digester.available alg ≡ true)
      × ((h.round_trip (put_request h u entry x alg token) w).0 ≡ ok res)
      × (res.status < 300)
      × (res.content_digest ≢ "")
      × (res.close ≡ ok tt)

  -- A PUT returns no error exactly when it names a known type and an available digest algorithm, was
  -- answered with a status below 300 and a content digest, and the body of the answer closes without
  -- error.
  pub do_put_request-ok :
      (u : Url) (t : String) (x : Bytes) (alg : Algorithm) (token : String) (w : W)
      → ((do_put_request h u t x alg token w).0 ≡ ok tt) ↔ IsAnswered u t x alg token w
  unfolding do_put_request
  do_put_request-ok u t x alg token w = (
    λ done. go done (api_mapper h t) refl,
    λ (e, res, known, hash, sent, low, named, closed).
        ground (arith, known, hash, sent, low, named, closed, eq_iff res.content_digest ""),
  )
    where
      answered :
          (do_put_request h u t x alg token w).0 ≡ ok tt
          → (e : ApiEntry) (r : Result Response) → api_mapper h t ≡ some e
          → (h.round_trip (put_request h u e x alg token) w).0 ≡ r
          → IsAnswered u t x alg token w
      answered done e (fail err) known failed = absurd (ground (arith, done))
      answered done e (ok res) known sent = (
        e,
        res,
        known,
        ground (arith, done),
        sent,
        ground (arith, done, eq_iff res.content_digest ""),
        ground (arith, done, eq_iff res.content_digest ""),
        ground (arith, done, eq_iff res.content_digest ""),
      )

      go :
          (do_put_request h u t x alg token w).0 ≡ ok tt
          → (o : Option ApiEntry) → api_mapper h t ≡ o
          → IsAnswered u t x alg token w
      go done none unknown = absurd (ground (arith, done))
      go done (some e) known =
          answered done e (h.round_trip (put_request h u e x alg token) w).0 known refl
