-- ===== src/Webapp/Ancestors/Loops.antt =====
-- The search loops of internal/webapp/ancestors.go: where an element passes a test, they stop at one.
use data_telemetry.Prelude.{
  ℕ, zero, suc, ◌+◌, ◌≡◌, refl, ◌∙◌, ap, ◌⊎◌, inl, inr, Bool, true, false, none, some, List, [],
  ◌∷◌, ◌++◌, arith, any, get_elem?, Bool-cases,
}
use data_telemetry.Db.Relatives.{first_index}

module _ {A : Type 0} (test : A → Bool) where
  pub any_at :
      (xs : List A) (i : ℕ) (x : A) → get_elem? xs i ≡ some x → test x ≡ true → any test xs ≡ true
  any_at [] i x h passes = cc
  any_at (y ∷ xs) zero x h passes = ground arith
  any_at (y ∷ xs) (suc i) x h passes = rw (any_at xs i x h passes) (ground arith)

  pub any_later : (x : A) (xs : List A) → any test xs ≡ true → any test (x ∷ xs) ≡ true
  any_later x xs h = rw h (ground arith)

  pub any-append : (xs ys : List A) → any test xs ≡ true → any test (xs ++ ys) ≡ true
  any-append [] ys h = cc
  any-append (x ∷ xs) ys h = ground (arith, any-append xs ys)

  pub any-append_right : (xs ys : List A) → any test ys ≡ true → any test (xs ++ ys) ≡ true
  any-append_right [] ys h = h
  any-append_right (x ∷ xs) ys h = rw (any-append_right xs ys h) (ground arith)

  -- The loop stops, at an element that passes the test.
  pub first_index-any :
      (k : ℕ) (xs : List A)
      → any test xs ≡ true
      → (i : ℕ) × (x : A) × (first_index test k xs ≡ some (i + k))
        × (get_elem? xs i ≡ some x)
        × (test x ≡ true)
  first_index-any k [] h = cc
  first_index-any k (x ∷ xs) h = elim (Bool-cases (test x)) [
    | inl passes ↦ (0, x, rw passes (ap some (omega arith)), refl, passes)
    | inr misses ↦
        let (i, y, found, here, passes) = first_index-any (suc k) xs (rw misses at h) in
        (suc i, y, rw misses (found ∙ ap some (omega arith)), here, passes)
  ]

  pub first_index_found :
      (xs : List A)
      → any test xs ≡ true
      → (i : ℕ) × (x : A) × (first_index test 0 xs ≡ some i)
        × (get_elem? xs i ≡ some x)
        × (test x ≡ true)
  first_index_found xs h =
      let (i, x, found, here, passes) = first_index-any 0 xs h in
      (i, x, found ∙ ap some (omega arith), here, passes)

  pub first_index-none : (k : ℕ) (xs : List A) → any test xs ≡ false → first_index test k xs ≡ none
  first_index-none k [] h = refl
  first_index-none k (x ∷ xs) h = ground (arith, first_index-none (suc k) xs)

  pub any-append_cases :
      (xs ys : List A) → any test (xs ++ ys) ≡ true → (any test xs ≡ true) ⊎ (any test ys ≡ true)
  any-append_cases [] ys h = inr h
  any-append_cases (x ∷ xs) ys h = ground (arith, any-append_cases xs ys)
