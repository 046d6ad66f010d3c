-- ===== src/Client/Utils.antt =====
-- pkg/client/utils.go: the parallel map over the clients, and the search for the first answer.
pub mod Parallel
pub mod Search
use data_telemetry.Prelude.{
  ℕ, zero, suc, Option, none, some, List, [], ◌∷◌, length, get_elem?, set, replicate, if◌then◌else◌,
}
use data_telemetry.Errors.{GoError, not_found, is_not_found, Result, ok, fail}
use data_telemetry.Action.{Action}
use data_telemetry.Client.{Client}

module _ {W T R : Type 0} (iteratee : T → ℕ → W → R × W) (collection : List T) where
  -- The goroutine of one index: it calls the iteratee and writes its own slot.
  unfoldable pub goroutine : ℕ → List (Option R) × W → List (Option R) × W
  goroutine i (result, w) = elim (get_elem? collection i) [
    | none ↦ (result, w)
    | some item ↦ let (res, w') = iteratee item i w in (set result i (some res), w')
  ]

  unfoldable pub run_goroutines : List ℕ → List (Option R) × W → List (Option R) × W
  run_goroutines [] s = s
  run_goroutines (i ∷ schedule) s = run_goroutines schedule (goroutine i s)

  -- `schedule` is the order in which the goroutines act on the world. A slot that nobody has
  -- written is `none` (Go's zero value).
  unfoldable pub parallel_map : List ℕ → W → List (Option R) × W
  parallel_map schedule w = run_goroutines schedule (replicate (length collection) none, w)

module _ {W A : Type 0} where
  unfoldable pub generic_get : List (Client W) → (Client W → Action W A) → Action W A
  generic_get [] get w = (fail not_found, w)
  generic_get (client ∷ clients) get w =
      let (r, w') = get client w in
      let rest = generic_get clients get w' in
      elim r [ ok a ↦ (ok a, w') | fail e ↦ if is_not_found e then rest else (fail e, w') ]
