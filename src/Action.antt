-- ===== src/Action.antt =====
-- Functions that read and change an outside world and may fail. What was done before a failure
-- stays done, so the world comes back beside the error too.
pub mod Returns
pub mod Ensures
use data_telemetry.Prelude.{String}
use data_telemetry.Errors.{GoError, Result, ok, fail, wrap}

abbrev pub Action {ℓ κ} : Type ℓ → Type κ → Type (ℓ ⊔ κ)
Action W A = W → Result A × W

module _ {ℓ κ} {W : Type ℓ} {A : Type κ} where
  abbrev pub pure : A → Action W A
  pure a w = (ok a, w)

  abbrev pub raise : GoError → Action W A
  raise e w = (fail e, w)

  abbrev pub lift : Result A → Action W A
  lift r w = (r, w)

  -- An action whose error is returned with a text in front.
  abbrev pub labelled : String → Action W A → Action W A
  labelled text m w = let (r, w') = m w in (wrap text r, w')

module _ {ℓ κ} {W : Type ℓ} {A B : Type κ} where
  abbrev pub follow : (A → Action W B) → Result A → W → Result B × W
  follow f (ok a) w = f a w
  follow f (fail e) w = (fail e, w)

  infixl 10 ◌>>=◌ ◌>>◌
  abbrev pub ◌>>=◌ : Action W A → (A → Action W B) → Action W B
  ◌>>=◌ m f w = let (r, w') = m w in follow f r w'

  abbrev pub ◌>>◌ : Action W A → Action W B → Action W B
  m >> n = m >>= λ _. n
