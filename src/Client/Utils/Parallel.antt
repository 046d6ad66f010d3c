-- ===== src/Client/Utils/Parallel.antt =====
-- `parallelMap` returns what a sequential map returns, in the order of the collection, whatever the
-- order in which the goroutines run.
use data_telemetry.Prelude.{
  ℕ, zero, suc, ◌+◌, ◌<◌, ◌≡◌, ◌≢◌, refl, sym, ◌∙◌, ap, Option, none, some, List, [], ◌∷◌, arith,
  ltb, lt→ltb, ◌==◌, ==_iff, if◌then◌else◌, length, get_elem?, replicate, length-set,
  length-replicate, get_elem?-set_self, get_elem?-set_ne, eq_of_get_elem?, inl, inr, Bool-cases,
  Option-cases,
}
use mathlib.Core.Path.{subst}
use native.Mathlib.Nat.{add-zero, zero-add}
use data_telemetry.Client.Utils.{goroutine, run_goroutines, parallel_map}

abbrev pub occurrences : ℕ → List ℕ → ℕ
occurrences i [] = 0
occurrences i (j ∷ js) = if i == j then suc (occurrences i js) else occurrences i js

-- Each goroutine of a collection of `n` items runs once.
abbrev pub IsSchedule : ℕ → List ℕ → Type 0
IsSchedule n js = (i : ℕ) → occurrences i js ≡ (if ltb i n then 1 else 0)

lt-length_of_get_elem? {ℓ} :
    {A : Type ℓ} (xs : List A) (i : ℕ) {x : A} → get_elem? xs i ≡ some x → i < length xs
lt-length_of_get_elem? [] i h = cc
lt-length_of_get_elem? (y ∷ ys) zero h = omega arith
lt-length_of_get_elem? (y ∷ ys) (suc i) h = omega (arith, lt-length_of_get_elem? ys i h)

get_elem?_of_lt {ℓ} :
    {A : Type ℓ} (xs : List A) (i : ℕ) → i < length xs → (x : A) × (get_elem? xs i ≡ some x)
get_elem?_of_lt [] i h = elim h [ ]
get_elem?_of_lt (x ∷ xs) zero h = (x, refl)
get_elem?_of_lt (x ∷ xs) (suc i) h = get_elem?_of_lt xs i (omega arith)

module _ {W T R : Type 0} (f : T → ℕ → W → R × W) where
  -- What the call of one item does to the world does not change what another item's call returns.
  abbrev pub Independent : List T → Type 0
  Independent xs =
      (i j : ℕ) (x y : T) (w : W)
      → get_elem? xs i ≡ some x
      → get_elem? xs j ≡ some y
      → i ≢ j
      → (f x i (f y j w).1).0 ≡ (f x i w).0

  -- The sequential map, each call from the same world; `k` is the index of the first item.
  abbrev pub each : List T → ℕ → W → List (Option R)
  each [] k w = []
  each (x ∷ xs) k w = some (f x k w).0 ∷ each xs (suc k) w

module _ {W T R : Type 0} (f : T → ℕ → W → R × W) (xs : List T) where
  length-goroutine :
      (i : ℕ) (rs : List (Option R)) (w : W) → length (goroutine f xs i (rs, w)).0 ≡ length rs
  unfolding goroutine
  length-goroutine i rs w = elim (Option-cases (get_elem? xs i)) [
    | inl e ↦ rw (e, goroutine)
    | inr (x, e) ↦ rw (e, goroutine) (length-set rs i _)
  ]

  length-run :
      (js : List ℕ) (rs : List (Option R)) (w : W)
      → length (run_goroutines f xs js (rs, w)).0 ≡ length rs
  unfolding run_goroutines
  length-run [] rs w = refl
  length-run (j ∷ js) rs w =
      length-run js (goroutine f xs j (rs, w)).0 (goroutine f xs j (rs, w)).1
      ∙ length-goroutine j rs w

  slot-goroutine_ne :
      (i j : ℕ) (rs : List (Option R)) (w : W)
      → i ≢ j
      → get_elem? (goroutine f xs j (rs, w)).0 i ≡ get_elem? rs i
  unfolding goroutine
  slot-goroutine_ne i j rs w d = elim (Option-cases (get_elem? xs j)) [
    | inl e ↦ rw (e, goroutine)
    | inr (x, e) ↦ rw (e, goroutine) (get_elem?-set_ne rs _ (λ p. d (sym p)))
  ]

  slot-goroutine_self :
      (i : ℕ) (x : T) (rs : List (Option R)) (w : W)
      → get_elem? xs i ≡ some x
      → i < length rs
      → get_elem? (goroutine f xs i (rs, w)).0 i ≡ some (some (f x i w).0)
  unfolding goroutine
  slot-goroutine_self i x rs w e h = rw (e, goroutine) (get_elem?-set_self rs i _ h)

  result-goroutine :
      Independent f xs
      → (i j : ℕ) (x : T) (rs : List (Option R)) (w : W) → get_elem? xs i ≡ some x
      → i ≢ j
      → (f x i (goroutine f xs j (rs, w)).1).0 ≡ (f x i w).0
  unfolding goroutine
  result-goroutine free i j x rs w here d = elim (Option-cases (get_elem? xs j)) [
    | inl e ↦ rw (e, goroutine)
    | inr (y, e) ↦ rw (e, goroutine) (free i j x y w here e d)
  ]

  -- A goroutine that is not in the schedule leaves its slot alone.
  slot-run_absent :
      (i : ℕ) (js : List ℕ) (rs : List (Option R)) (w : W)
      → occurrences i js ≡ 0
      → get_elem? (run_goroutines f xs js (rs, w)).0 i ≡ get_elem? rs i
  unfolding run_goroutines
  slot-run_absent i [] rs w absent = refl
  slot-run_absent i (j ∷ js) rs w absent = elim (Bool-cases (i == j)) [
    | inl e ↦ absurd (omega (arith, rw e at absent))
    | inr e ↦
        slot-run_absent i js (goroutine f xs j (rs, w)).0 (goroutine f xs j (rs, w)).1
          (rw e at absent)
        ∙ slot-goroutine_ne i j rs w (λ p. cc (e, (==_iff i j).1 p))
  ]

  slot-run :
      Independent f xs
      → (i : ℕ) (x : T) (js : List ℕ) (rs : List (Option R)) (w : W) → get_elem? xs i ≡ some x
      → i < length rs
      → occurrences i js ≡ 1
      → get_elem? (run_goroutines f xs js (rs, w)).0 i ≡ some (some (f x i w).0)
  unfolding run_goroutines
  slot-run free i x [] rs w e h once = absurd (omega arith)
  slot-run free i x (j ∷ js) rs w e h once = elim (Bool-cases (i == j)) [
    | inl same ↦
        subst
          (λ k.
            get_elem? (run_goroutines f xs js (goroutine f xs k (rs, w))).0 i
            ≡ some (some (f x i w).0))
          ((==_iff i j).0 same)
          (slot-run_absent i js (goroutine f xs i (rs, w)).0 (goroutine f xs i (rs, w)).1
              (omega (arith, rw same at once))
            ∙ slot-goroutine_self i x rs w e h)
    | inr other ↦
        let d : i ≢ j = λ p. cc (other, (==_iff i j).1 p) in
        slot-run free i x js (goroutine f xs j (rs, w)).0 (goroutine f xs j (rs, w)).1 e
          (rw (length-goroutine j rs w) h) (rw other at once)
        ∙ ap (λ r. some (some r)) (result-goroutine free i j x rs w e d)
  ]

  get_elem?-each :
      (ys : List T) (i k : ℕ) (x : T) (w : W)
      → get_elem? ys i ≡ some x
      → get_elem? (each f ys k w) i ≡ some (some (f x (k + i) w).0)
  get_elem?-each [] i k x w e = cc
  get_elem?-each (y ∷ ys) zero k x w e = rw (add-zero k) (cc e)
  get_elem?-each (y ∷ ys) (suc i) k x w e =
      get_elem?-each ys i (suc k) x w e ∙ ap (λ n. some (some (f x n w).0)) (omega arith)

  length-each : (ys : List T) (k : ℕ) (w : W) → length (each f ys k w) ≡ length ys
  length-each [] k w = refl
  length-each (y ∷ ys) k w = ap suc (length-each ys (suc k) w)

  -- If each goroutine runs once, in any order, and the call of no item changes what that of another returns, then
  -- `parallelMap` returns one result for each item, in the order of the items, and the result of
  -- an item is what its call returns from the first world.
  pub parallel_map-eq-each :
      (schedule : List ℕ) (w : W)
      → Independent f xs
      → IsSchedule (length xs) schedule
      → (parallel_map f xs schedule w).0 ≡ each f xs 0 w
  unfolding parallel_map
  parallel_map-eq-each schedule w free complete =
      eq_of_get_elem? (parallel_map f xs schedule w).0 (each f xs 0 w)
        (length-run schedule (replicate (length xs) none) w
          ∙ length-replicate (length xs) none
          ∙ sym (length-each xs 0 w))
        λ i r e. agree i r e (
          get_elem?_of_lt xs i
            (rw (length-each xs 0 w) at (lt-length_of_get_elem? (each f xs 0 w) i e)))
    where
      agree :
          (i : ℕ) (r : Option R)
          → get_elem? (each f xs 0 w) i ≡ some r
          → (x : T) × (get_elem? xs i ≡ some x)
          → get_elem? (parallel_map f xs schedule w).0 i ≡ some r
      agree i r e (x, here) =
          slot-run free i x schedule (replicate (length xs) none) w here
            (rw (length-replicate {A = Option R} (length xs) none)
              (lt-length_of_get_elem? xs i here))
            (complete i ∙ rw (lt→ltb i (length xs) (lt-length_of_get_elem? xs i here)))
          ∙ sym (rw zero-add at (get_elem?-each xs i 0 x w here))
          ∙ e
