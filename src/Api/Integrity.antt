-- ===== src/Api/Integrity.antt =====
-- internal/api/handlers.go: stored digests are digests of the stored data, and uploads keep it so.
pub mod Puts
pub mod Gets
use mathlib.Core.Option.{some-injective}
use mathlib.Core.Path.{subst}
use data_telemetry.Prelude.{
  ℕ, ◌≡◌, refl, sym, ◌∙◌, ap, String, Bool, true, false, Option, none, some, List, [], ◌∷◌, ◌++◌,
  arith, str_eq, eq_iff, ◌==◌, ==_iff, Bool-cases, Option-cases, inl, inr,
}
use data_telemetry.Errors.{Digest, Algorithm, Bytes, GoError, Result, ok, fail}
use data_telemetry.Action.{Action, ◌>>=◌, ◌>>◌}
use data_telemetry.Action.Ensures.{Post, Post-bind, Post_world}
use data_telemetry.Types.{Digester}
use data_telemetry.Db.Models.{Data, DigestAlias, Base, Tables}
use data_telemetry.Db.Gorm.{
  Gorm, IsDocumented, DataOutcome, DigestOutcome, ReadOutcome, data_by_canonical, data_by_id,
  alias_of,
}
use data_telemetry.Db.Processors.{Processor}
use data_telemetry.Api.{
  Config, Request, Response, Server, db, parse_data_put_params, canonical_digest, find_base,
  process_current, process_object, store_data, generic_put_data,
}

abbrev pub All : {A : Type 0} → (A → Type 0) → List A → Type 0
All P [] = Unit
All P (x ∷ xs) = P x × All P xs

pub All-append :
    {A : Type 0} (P : A → Type 0) (xs ys : List A) → All P xs → All P ys → All P (xs ++ ys)
All-append P [] ys a b = b
All-append P (x ∷ xs) ys a b = (a.0, All-append P xs ys a.1 b)

pub All-map :
    {A : Type 0} (P Q : A → Type 0) (xs : List A) → ((x : A) → P x → Q x) → All P xs → All Q xs
All-map P Q [] f a = tt
All-map P Q (x ∷ xs) f a = (f x a.0, All-map P Q xs f a.1)

All-both :
    {A : Type 0} (P Q : A → Type 0) (xs : List A) → All P xs → All Q xs → All (λ x. P x × Q x) xs
All-both P Q [] a b = tt
All-both P Q (x ∷ xs) a b = ((a.0, b.0), All-both P Q xs a.1 b.1)

data_by_id-append :
    (i : ℕ) (xs ys : List Data) (x : Data)
    → data_by_id i xs ≡ some x
    → data_by_id i (xs ++ ys) ≡ some x
data_by_id-append i [] ys x h = cc
data_by_id-append i (z ∷ xs) ys x h = ground (arith, data_by_id-append i xs ys x)

data_by_id_last :
    (xs : List Data) (x : Data)
    → data_by_id x.id xs ≡ none
    → data_by_id x.id (xs ++ (x ∷ [])) ≡ some x
data_by_id_last [] x h = ground arith
data_by_id_last (z ∷ xs) x h = ground (arith, data_by_id_last xs x)

of_data_by_canonical :
    (P : Data → Type 0) (c : Digest) (xs : List Data) (x : Data)
    → All P xs
    → data_by_canonical c xs ≡ some x
    → P x × (x.canonical_digest ≡ c)
of_data_by_canonical P c [] x a h = cc
of_data_by_canonical P c (z ∷ xs) x a h = elim (Bool-cases (str_eq c z.canonical_digest)) [
  | inl same ↦
      subst (λ y. P y × (y.canonical_digest ≡ c)) (some-injective z x (rw same at h))
        (a.0, sym ((eq_iff c z.canonical_digest).0 same))
  | inr other ↦ of_data_by_canonical P c xs x a.1 (rw other at h)
]

-- An alias names a data record, and is the digest of its content.
abbrev pub Matches : Digester → List Data → DigestAlias → Type 0
Matches digester rows a =
    (x : Data) × (data_by_id a.data_id rows ≡ some x)
    × (digester.from_bytes (digester.algorithm a.digest) x.raw_data ≡ a.digest)

-- Data records are found by their keys, their canonical digests are digests of their contents, and
-- so are all aliases.
pub record IsIntact (c : Config) (t : Tables) : Type 0 where
  pub keyed : All (λ x. data_by_id x.id t.data_rows ≡ some x) t.data_rows
  pub canonical :
      All (λ x. c.digester.from_bytes c.canonical x.raw_data ≡ x.canonical_digest) t.data_rows
  pub aliases : All (Matches c.digester t.data_rows) t.digests

-- The content collides with no stored data under the canonical algorithm.
abbrev pub NoCollision : Config → Bytes → Tables → Type 0
NoCollision c content t =
    All (λ x. c.digester.from_bytes c.canonical content ≡ x.canonical_digest → x.raw_data ≡ content)
      t.data_rows

-- go-digest: an available algorithm can be read back from its digests; Canonical is available.
pub record IsDigester (c : Config) : Type 0 where
  pub algorithm-from_bytes :
      (alg : Algorithm) (x : Bytes)
      → c.digester.available alg ≡ true
      → c.digester.algorithm (c.digester.from_bytes alg x) ≡ alg
  pub canonical_available : c.digester.available c.canonical ≡ true

module _ (c : Config) (law : IsDigester c) where
  from_bytes_again :
      (alg : Algorithm) (content : Bytes) (d : Digest)
      → (c.digester.available alg ≡ true)
      → c.digester.from_bytes alg content ≡ d
      → c.digester.from_bytes (c.digester.algorithm d) content ≡ d
  from_bytes_again alg content d up h =
      ap (λ a. c.digester.from_bytes a content)
        (ap c.digester.algorithm (sym h) ∙ law.algorithm-from_bytes alg content up)
      ∙ h

  confirmed :
      (content : Bytes) (client d : Digest)
      → str_eq (c.digester.from_bytes (c.digester.algorithm client) content) client ≡ true
      → c.digester.from_bytes (c.digester.algorithm client) content ≡ d
      → c.digester.from_bytes (c.digester.algorithm d) content ≡ d
  confirmed content client d same h =
      let equal =
        (eq_iff (c.digester.from_bytes (c.digester.algorithm client) content) client).0 same in
      ap (λ x. c.digester.from_bytes (c.digester.algorithm x) content) (sym h ∙ equal) ∙ h

  -- The digest that a PUT is stored under is that of its body.
  pub parse_data_put_params-ok :
      (content : Bytes) (req : Request) (d : Digest)
      → parse_data_put_params c content req ≡ ok d
      → c.digester.from_bytes (c.digester.algorithm d) content ≡ d
  unfolding parse_data_put_params
  parse_data_put_params-ok content req d h =
      let canonical = from_bytes_again c.canonical content d law.canonical_available in
      let given = from_bytes_again req.digest_alg content d in
      elim (Option-cases (c.digester.parse req.digest)) [
        | inl missing ↦ ground arith
        | inr some_client ↦
            let client = some_client.0 in
            let same = confirmed content client d in ground (arith, some_client.1)
      ]

  pub canonical_digest_lem :
      (content : Bytes) (d : Digest)
      → c.digester.from_bytes (c.digester.algorithm d) content ≡ d
      → canonical_digest c d content ≡ c.digester.from_bytes c.canonical content
  unfolding canonical_digest
  canonical_digest_lem content d h = ground (arith, h, eq_iff (c.digester.algorithm d) c.canonical)

  created_lem :
      (content : Bytes) (k : Digest) (i : ℕ) (s : Tables)
      → data_by_id i s.data_rows ≡ none
      → k ≡ c.digester.from_bytes c.canonical content
      → IsIntact c s
      → let x : Data = record { id = i; raw_data = content; canonical_digest = k } in
        let t : Tables = record s { data_rows = s.data_rows ++ (x ∷ []) } in
        IsIntact c t × (data_by_id i t.data_rows ≡ some x) × (content ≡ content)
  created_lem content k i s new named safe =
      let x : Data = record { id = i; raw_data = content; canonical_digest = k } in
      let last = data_by_id_last s.data_rows x new in
      (
        record {
          keyed =
              All-append _ s.data_rows (x ∷ [])
                (All-map _ _ s.data_rows (λ y h. data_by_id-append y.id s.data_rows (x ∷ []) y h)
                  safe.keyed)
                (last, tt);
          canonical = All-append _ s.data_rows (x ∷ []) safe.canonical (sym named, tt);
          aliases =
              All-map _ _ s.digests
                (λ a h. (h.0, data_by_id-append a.data_id s.data_rows (x ∷ []) h.0 h.1, h.2))
                safe.aliases;
        },
        last,
        refl,
      )

  pub data_stored :
      (content : Bytes) (k : Digest) (s : Tables) (r : Result Data × Tables)
      → DataOutcome k content s r
      → k ≡ c.digester.from_bytes c.canonical content
      → IsIntact c s
      → NoCollision c content s
      → Post
          (λ x t. IsIntact c t × (data_by_id x.id t.data_rows ≡ some x) × (x.raw_data ≡ content))
          (IsIntact c)
          r
  data_stored content k s r (DataOutcome.failed e) named safe fresh = safe
  data_stored content k s r (DataOutcome.found x here) named safe fresh =
      let (hash, key) =
        of_data_by_canonical
          (λ y.
            (data_by_id y.id s.data_rows ≡ some y)
            × (c.digester.from_bytes c.canonical content ≡ y.canonical_digest
                → y.raw_data ≡ content))
          k s.data_rows x (All-both _ _ s.data_rows safe.keyed fresh) here in
      (safe, hash.0, hash.1 (sym named ∙ sym key))
  data_stored content k s r (DataOutcome.created i absent new) named safe fresh =
      created_lem content k i s new named safe
