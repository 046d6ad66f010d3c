-- ===== src/Errors.antt =====
-- Go's `error` values as the program makes and inspects them (pkg/types/http.go, and `errors.As`,
-- `errors.Is` and `errors.Join` of the standard library), and functions that may fail.
use data_telemetry.Prelude.{
  ℕ, ◌≡◌, refl, ap, ◌⊎◌, inl, inr, String, Bool, true, false, ◌||◌, Option, none, some, List, [],
  ◌∷◌,
}

-- digest.Digest and digest.Algorithm are strings; their format belongs to another package.
abbrev pub Digest : Type 0
Digest = String

abbrev pub Algorithm : Type 0
Algorithm = String

abbrev pub Bytes : Type 0
Bytes = List ℕ

pub data GoError : Type 0 where
  -- *types.MissingDigestsError, a 412, with the item of its detail
  missing_digests : String → List Digest → GoError
  -- *httputil.HTTPError
  http_error : ℕ → String → GoError
  -- client.ErrNotFound
  not_found : GoError
  -- gorm.ErrRecordNotFound
  record_not_found : GoError
  -- an error of another package or of errors.New
  message : String → GoError
  -- fmt.Errorf with %w
  wrapped : String → GoError → GoError
  -- errors.Join of two errors or more: the first and those after it
  joined : GoError → GoError → GoError
  -- A run-time panic, which ends the call too.
  panicked : String → GoError
  -- No error of the program: the fuel of a loop of the model ran out.
  still_running : GoError

-- `errors.As(err, &missing)`: the first MissingDigestsError of the tree, in depth-first order.
unfoldable pub as_missing : GoError → Option (List Digest)
as_missing (missing_digests item ds) = some ds
as_missing (wrapped text e) = as_missing e
as_missing (joined e es) =
    let rest = as_missing es in elim (as_missing e) [ some ds ↦ some ds | none ↦ rest ]
as_missing _ = none

-- `errors.Is(err, ErrNotFound)`
unfoldable pub is_not_found : GoError → Bool
is_not_found not_found = true
is_not_found (wrapped text e) = is_not_found e
is_not_found (joined e es) = is_not_found e || is_not_found es
is_not_found _ = false

pub data Result {ℓ} (A : Type ℓ) : Type ℓ where
  ok : A → Result A
  fail : GoError → Result A

-- A function that returns an error alone.
abbrev pub Status : Type 0
Status = Result (Unit {0})

-- `if err != nil { return fmt.Errorf("text: %w", err) }`
abbrev pub wrap {ℓ} : {A : Type ℓ} → String → Result A → Result A
wrap text (ok a) = ok a
wrap text (fail e) = fail (wrapped text e)

-- The error of a call, replaced by an HTTP error.
abbrev pub as_http {ℓ} : {A : Type ℓ} → ℕ → String → Result A → Result A
as_http status text (ok a) = ok a
as_http status text (fail e) = fail (http_error status text)

-- errors.Join: nil values are dropped, and the join of none is nil.
unfoldable pub join : List Status → Status
join [] = ok tt
join (ok u ∷ rs) = join rs
join (fail e ∷ rs) =
    let rest = join rs in elim rest [ ok u ↦ fail e | fail es ↦ fail (joined e es) ]

pub ok-injective {ℓ} : {A : Type ℓ} (a b : A) → Result.ok a ≡ ok b → a ≡ b
ok-injective a b e = ap (λ r. elim r [ ok x ↦ x | fail x ↦ a ]) e

pub Result-cases {ℓ} :
    {A : Type ℓ} (r : Result A) → ((a : A) × (r ≡ ok a)) ⊎ ((e : GoError) × (r ≡ fail e))
Result-cases (ok a) = inl (a, refl)
Result-cases (fail e) = inr (e, refl)
