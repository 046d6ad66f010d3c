-- ===== src/Db/Scopes.antt =====
-- internal/db/scopes.go: the scopes, as functions from the tables and the rows that a query has so
-- far to the rows that it has then, one for each combination that the joins of the scope produce.
-- `IN (subquery)` asks only for membership, so that a `Distinct` in a subquery does not show.
pub mod Named
pub mod Family
pub mod Deprecation
pub mod Having
pub mod Filters
pub mod Metrics
pub mod Authors
pub mod Selectors
use data_telemetry.Prelude.{
  ℕ, String, Bool, false, not, List, [], ◌∷◌, ◌++◌, map, str_eq, ◌<>◌, ◌==◌, if◌then◌else◌, select,
  any,
}
use data_telemetry.Errors.{Digest}
use data_telemetry.Db.Models.{
  DigestAlias, Bottle, Source, Part, Deprecates, Event, Signature, SignatureAnnotation, Tables,
}
use data_telemetry.Db.Joins.{owned, inner_join}

-- `INNER JOIN digests ON digests.data_id = T.data_id AND digests.digest IN (dgsts)`: a row for
-- each digest record that matches.
unfoldable pub aliases_in : List Digest → ℕ → List DigestAlias → List DigestAlias
aliases_in dgsts data_id =
    select λ a. if data_id == a.data_id then any (str_eq a.digest) dgsts else false

unfoldable pub filter_by_digests :
    {Row : Type 0} → (Row → ℕ) → List Digest → List DigestAlias → List Row → List Row
unfolding aliases_in
filter_by_digests data_id dgsts aliases [] = []
filter_by_digests data_id dgsts aliases (b ∷ bs) =
    map (λ a. b) (aliases_in dgsts (data_id b) aliases)
    ++ filter_by_digests data_id dgsts aliases bs

-- `x IN (xs)`
abbrev pub is_in : List String → String → Bool
is_in xs x = any (str_eq x) xs

-- `digests.data_id = bottles.data_id`
abbrev pub has_alias : Bottle → DigestAlias → Bool
has_alias b a = a.data_id == b.base.data_id

-- `bottles INNER JOIN digests`, for the rows of a query or those of the table.
unfoldable pub with_digests : Tables → List Bottle → List (Bottle × DigestAlias)
with_digests t = inner_join has_alias t.digests

-- The rows of such a join whose digest is one of `ds`.
unfoldable pub named_in : List Digest → List (Bottle × DigestAlias) → List (Bottle × DigestAlias)
named_in ds = select λ r. is_in ds r.1.digest

-- The digests of the bottles that own a record that passes `test`: a subquery of several scopes.
unfoldable pub digests_of_owners :
    {Row : Type 0} → (Bottle → List Row) → (Row → Bool) → Tables → List Digest
unfolding with_digests
digests_of_owners rows test t =
    map (λ r. r.1.digest)
      (with_digests t (map (λ r. r.0) (select (λ r. test r.1) (owned rows t.bottles))))

unfoldable pub search_by_repository : String → Tables → List Bottle → List Bottle
search_by_repository repo t rows =
    if str_eq repo ""
    then rows
    else select
        (λ b.
          any (λ r. r.1.base.id == b.base.id)
            (select (λ r. str_eq r.0.repository repo)
              (inner_join (λ (e : Event) (o : Bottle). e.bottle_id == o.base.id) t.bottles
                t.events)))
        rows

unfoldable pub filter_by_public_key_fp : Digest → List Signature → List Signature
filter_by_public_key_fp fp = select λ s. str_eq s.public_key_finger_print fp

unfoldable pub with_signature : List Digest → Tables → List Bottle → List Bottle
with_signature ds t = select λ b.
    any (λ s. s.bottle_id == b.base.id)
      (select (λ s. is_in ds s.public_key_finger_print) t.signatures)

unfoldable pub with_signature_annotations : List String → Tables → List Bottle → List Bottle
with_signature_annotations [] t rows = rows
with_signature_annotations (x ∷ xs) t rows =
    select
      (λ b.
        any (λ r. r.0.bottle_id == b.base.id)
          (select (λ r. is_in (x ∷ xs) (r.1.key <> "=" <> r.1.value))
            (owned (λ (s : Signature). s.annotations) t.signatures)))
      rows

-- The digests that the sources of bottles with one of the digests name.
unfoldable pub parent_digests : List Digest → Tables → List Digest
unfolding with_digests named_in
parent_digests ds t =
    map (λ r. r.1.bottle_digest)
      (owned (λ (r : Bottle × DigestAlias). r.0.sources) (named_in ds (with_digests t t.bottles)))

unfoldable pub parents_of : List Digest → Tables → List Bottle → List Bottle
unfolding with_digests named_in parent_digests
parents_of ds t rows = map (λ r. r.0) (named_in (parent_digests ds t) (with_digests t rows))

-- All digests of the data that has one of the digests.
unfoldable pub child_digests : List Digest → Tables → List Digest
child_digests ds t =
    map (λ r. r.0.digest)
      (select (λ r. is_in ds r.1.digest)
        (inner_join (λ (a : DigestAlias) (o : DigestAlias). a.data_id == o.data_id) t.digests
          t.digests))

unfoldable pub children_of : List Digest → Tables → List Bottle → List Bottle
unfolding child_digests
children_of ds t rows =
    map (λ r. r.0)
      (select (λ r. is_in (child_digests ds t) r.1.bottle_digest)
        (owned (λ (b : Bottle). b.sources) rows))

-- The digests that bottles with the digest say they deprecate.
unfoldable pub deprecated_digests : Digest → Tables → List Digest
unfolding with_digests named_in
deprecated_digests d t =
    map (λ r. r.1.deprecated_bottle_digest)
      (owned (λ (r : Bottle × DigestAlias). r.0.deprecates)
        (named_in (d ∷ []) (with_digests t t.bottles)))

-- The two scopes of deprecation also tell which digest record matched.
unfoldable pub deprecated_by : Digest → Tables → List Bottle → List (Bottle × DigestAlias)
unfolding with_digests named_in deprecated_digests
deprecated_by d t rows = named_in (deprecated_digests d t) (with_digests t rows)

unfoldable pub deprecates_this : Digest → Tables → List Bottle → List (Bottle × DigestAlias)
unfolding with_digests named_in digests_of_owners
deprecates_this d t rows =
    named_in (digests_of_owners (λ b. b.deprecates) (λ x. str_eq x.deprecated_bottle_digest d) t)
      (with_digests t rows)

unfoldable pub exclude_deprecated : Tables → List Bottle → List Bottle
unfolding with_digests
exclude_deprecated t rows =
    map (λ r. r.0)
      (select
        (λ r. not (
          is_in
            (map (λ r. r.1.deprecated_bottle_digest)
              (owned (λ (b : Bottle). b.deprecates) t.bottles))
            r.1.digest))
        (with_digests t rows))

-- The conditions of the loops of FilterByParts and FilterByMetric: for each query, the digest is one
-- of a bottle that owns a row which passes.
unfoldable pub having :
    {Q Row : Type 0}
    → (Bottle → List Row)
    → (Q → Row → Bool)
    → List Q
    → Tables
    → List (Bottle × DigestAlias)
    → List (Bottle × DigestAlias)
unfolding named_in digests_of_owners
having rows test [] t rs = rs
having rows test (q ∷ qs) t rs =
    having rows test qs t (named_in (digests_of_owners rows (test q) t) rs)

unfoldable pub filter_by_parts : List Digest → Tables → List Bottle → List Bottle
unfolding with_digests having
filter_by_parts ds t rows =
    map (λ r. r.0) (having (λ b. b.parts) (λ d p. str_eq p.digest d) ds t (with_digests t rows))
