-- ===== src/Api/Integrity/Gets.antt =====
-- internal/api/handlers.go: what a GET of the shared handler serves has the digest that was asked for.
use mathlib.Core.Path.{subst}
use data_telemetry.Prelude.{
  ℕ, ◌≡◌, refl, ap, ◌∙◌, String, Option, none, some, List, [], ◌∷◌, ◌++◌, str_eq, eq_iff, ◌==◌,
  ==_iff, ◌<>◌, ◌⊎◌, Bool-cases, inl, inr, map, take, length,
}
use data_telemetry.Action.{labelled}
use data_telemetry.Errors.{Digest, Bytes, Status, http_error, Result, ok, fail, ok-injective}
use data_telemetry.Action.Ensures.{Post, Post-bind, Post-lift}
use data_telemetry.Db.Models.{Data, DigestAlias, Base, Tables}
use data_telemetry.Db.Gorm.{IsDocumented, ReadOutcome, data_by_id, first_row, bases}
use data_telemetry.Db.Scopes.{aliases_in, filter_by_digests}
use data_telemetry.Api.{
  Config, Request, Response, Server, write_body, db, parsed, preload_data, find_by_digest,
  generic_get_data,
}
use data_telemetry.Api.Integrity.{All, IsIntact, Matches}

first_row_cases :
    (named : List DigestAlias) (r b : Base) (rows : List Base)
    → first_row (map (λ a. r) named ++ rows) ≡ ok b
    → ((named ≡ []) × (first_row rows ≡ ok b)) ⊎ (r ≡ b)
first_row_cases [] r b rows h = inl (refl, h)
first_row_cases (a ∷ more) r b rows h = inr cc

module _ (P : DigestAlias → Type 0) (d : Digest) where
  abbrev Alias : ℕ → Type 0
  Alias i = (a : DigestAlias) × P a × (i ≡ a.data_id) × (a.digest ≡ d)

  aliases_in-cases :
      (i : ℕ) (aliases : List DigestAlias)
      → All P aliases
      → (aliases_in (d ∷ []) i aliases ≡ []) ⊎ Alias i
  unfolding aliases_in
  aliases_in-cases i [] h = inl refl
  aliases_in-cases i (a ∷ more) h = elim (Bool-cases (i == a.data_id)) [
    | inl same ↦ elim (Bool-cases (str_eq a.digest d)) [
      | inl equal ↦ inr (a, h.0, (==_iff i a.data_id).0 same, (eq_iff a.digest d).0 equal)
      | inr other ↦ rw (same, other) (aliases_in-cases i more h.1)
    ]
    | inr other ↦ rw other (aliases_in-cases i more h.1)
  ]

  filter_by_digests-Alias :
      (aliases : List DigestAlias) (rows : List Base) (b : Base)
      → All P aliases
      → first_row (filter_by_digests (λ (b : Base). b.data_id) (d ∷ []) aliases rows) ≡ ok b
      → Alias b.data_id
  unfolding filter_by_digests
  filter_by_digests-Alias aliases [] b h found = cc
  filter_by_digests-Alias aliases (r ∷ rows) b h found =
      let rest = filter_by_digests-Alias aliases rows b h in
      elim (first_row_cases (aliases_in (d ∷ []) r.data_id aliases) r b _ found) [
        | inl empty ↦ rest empty.1
        | inr same ↦ elim (aliases_in-cases r.data_id aliases h) [
          | inl empty ↦ rest (rw empty at found)
          | inr named ↦ subst (λ i. Alias i) (ap (λ x. x.data_id) same) named
        ]
      ]

-- What is served has the digest.
abbrev Hashes : Config → Digest → Bytes → Type 0
Hashes c d content = c.digester.from_bytes (c.digester.algorithm d) content ≡ d

preload_data-Hashes :
    (c : Config) (d : Digest) (rows : List Data) (b : Base)
    → Alias (Matches c.digester rows) d b.data_id
    → Hashes c d (preload_data c rows b).content.raw_data
unfolding preload_data
preload_data-Hashes c d rows b (a, (x, here, hash), same, equal) =
    let at : data_by_id b.data_id rows ≡ some x = rw same here in
    rw (preload_data, at) (subst (λ y. Hashes c y x.raw_data) equal hash)

find_by_digest-Hashes :
    (c : Config) (table : String) (d : Digest) (t : Tables) (b : Base)
    → IsIntact c t
    → find_by_digest c table d t ≡ ok b
    → Hashes c d b.content.raw_data
unfolding find_by_digest
find_by_digest-Hashes c table d t b safe found =
    go (first_row (filter_by_digests (λ (b : Base). b.data_id) (d ∷ []) t.digests (bases table t)))
      refl found
  where
    go :
        (r : Result Base)
        → first_row (filter_by_digests (λ (b : Base). b.data_id) (d ∷ []) t.digests (bases table t))
          ≡ r
        → elim r [
          | fail e ↦ fail (http_error 404 ("Data in " <> table <> " not found"))
          | ok b ↦ ok (preload_data c t.data_rows b)
        ]
          ≡ ok b
        → Hashes c d b.content.raw_data
    go (fail e) h miss = cc
    go (ok r) h hit =
        let named =
          filter_by_digests-Alias (Matches c.digester t.data_rows) d t.digests (bases table t) r
            safe.aliases h in
        subst (λ y. Hashes c d y.content.raw_data) (ok-injective _ _ hit)
          (preload_data-Hashes c d t.data_rows r named)

of_parsed :
    (o : Option Digest) (d : Digest)
    → parsed 400 "Invalid digest-alg parameter" o ≡ ok d
    → o ≡ some d
of_parsed none d h = cc
of_parsed (some x) d h = ap some (ok-injective x d h)

take_all : (xs : Bytes) → take (length xs) xs ≡ xs
take_all [] = refl
take_all (x ∷ xs) = ap (λ l. x ∷ l) (take_all xs)

-- The documentation of io.Writer: a write of fewer bytes than are given returns an error.
abbrev pub IsWriting : Config → Type 0
IsWriting c = (r : Response) (x : Bytes) → (c.write r x).1 ≡ ok tt → (c.write r x).0 ≡ length x

-- The query names a digest, of which the content is; this is added to X-Content-Digest, no status is
-- set, and the body is as given.
abbrev pub IsAnswer : Config → Request → Server → Server → Bytes → Bytes → Type 0
IsAnswer c req w w' content body =
    (d : Digest) × (c.digester.parse req.digest ≡ some d)
    × Hashes c d content
    × (w'.response.body ≡ body)
    × (w'.response.content_digests ≡ w.response.content_digests ++ (d ∷ []))
    × (w'.response.statuses ≡ w.response.statuses)

write_body-IsAnswer :
    (c : Config) (req : Request) (w w1 : Server) (content : Bytes)
    → IsWriting c
    → ((n : ℕ)
        → IsAnswer c req w
            (record w1 {
              response = record w1.response { body = w1.response.body ++ take n content };
            })
            content
            (take n content))
    → Post
        (λ u w'. (x : Bytes) × IsAnswer c req w w' x x)
        (λ w'.
          (w'.response ≡ w.response) ⊎ ((x : Bytes) × (n : ℕ) × IsAnswer c req w w' x (take n x)))
        (labelled "getting data" (write_body c content) w1)
unfolding write_body
write_body-IsAnswer c req w w1 content writes answer = go (c.write w1.response content).1 refl
  where
    go :
        (r : Status)
        → (c.write w1.response content).1 ≡ r
        → Post
            (λ u w'. (x : Bytes) × IsAnswer c req w w' x x)
            (λ w'.
              (w'.response ≡ w.response)
              ⊎ ((x : Bytes) × (n : ℕ) × IsAnswer c req w w' x (take n x)))
            (labelled "getting data" (write_body c content) w1)
    go (ok u) e = rw e (
      content,
      subst (λ y. IsAnswer c req w (write_body c content w1).1 content y)
          (ap (λ n. take n content) (writes w1.response content e) ∙ take_all content)
          (answer (c.write w1.response content).0),
    )
    go (fail x) e =
        rw e
          (inr (content, (c.write w1.response content).0, answer (c.write w1.response content).0))

-- If gorm behaves as documented, the stored data is sound, a short write returns an error and no
-- body was written before, a GET either succeeds, or fails and leaves the response untouched, or
-- fails while it writes the body. In the first and the last case the query names a digest, the body
-- is, or is the beginning of, content that hashes to it, the digest is added to the X-Content-
-- Digest headers, and no status is set.
pub generic_get_data-Hashes :
    (c : Config) (documented : IsDocumented c.gorm) (writes : IsWriting c)
    (table media_type : String) (req : Request) (w : Server)
    → req.method ≡ "GET"
    → w.response.body ≡ []
    → IsIntact c w.tables
    → Post
        (λ u w'. (x : Bytes) × IsAnswer c req w w' x x)
        (λ w'.
          (w'.response ≡ w.response) ⊎ ((x : Bytes) × (n : ℕ) × IsAnswer c req w w' x (take n x)))
        (generic_get_data c table media_type req w)
unfolding generic_get_data
generic_get_data-Hashes c documented writes table media_type req w method empty safe =
    let Q = λ (u : Unit {0}) (w' : Server). (x : Bytes) × IsAnswer c req w w' x x in
    let E = λ (w' : Server).
      (w'.response ≡ w.response) ⊎ ((x : Bytes) × (n : ℕ) × IsAnswer c req w w' x (take n x)) in
    Post-lift (parsed 400 "Invalid digest-alg parameter" (c.digester.parse req.digest)) _ w Q E
      (inl refl)
      λ d named.
        Post-bind (db c.gorm.read) _ w (λ rows w'. (rows ≡ w.tables) × (w'.response ≡ w.response)) Q
          E (read_keeps (c.gorm.read w.tables) (documented.reads w.tables))
          λ rows w1 h1. Post-lift (find_by_digest c table d rows) _ w1 Q E (inl h1.1) λ b found.
            rw method (
              write_body-IsAnswer c req w _ b.content.raw_data writes λ n. (
                d,
                of_parsed (c.digester.parse req.digest) d named,
                find_by_digest-Hashes c table d w.tables b safe (rw h1.0 at found),
                rw (h1.1, empty) refl,
                ap (λ x. x.content_digests ++ (d ∷ [])) h1.1,
                ap (λ x. x.statuses) h1.1,
              ))
  where
    read_keeps :
        (r : Result Tables × Tables)
        → ReadOutcome w.tables r
        → Post
            (λ rows w'. (rows ≡ w.tables) × (w'.response ≡ w.response))
            (λ w'.
              (w'.response ≡ w.response)
              ⊎ ((x : Bytes) × (n : ℕ) × IsAnswer c req w w' x (take n x)))
            (r.0, record w { tables = r.1 })
    read_keeps r (ReadOutcome.failed e) = inl refl
    read_keeps r ReadOutcome.read_all = (refl, refl)
