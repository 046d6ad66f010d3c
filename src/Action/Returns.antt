-- ===== src/Action/Returns.antt =====
-- Total correctness of an action, with one rule for each way to build it.
use mathlib.Core.Path.{subst}
use data_telemetry.Prelude.{String, ◌≡◌, sym, ap, ◌∙◌}
use data_telemetry.Errors.{Result, ok}
use data_telemetry.Action.{Action, lift, labelled, ◌>>=◌, ◌>>◌}

-- From `w` the action returns `a`, and the world that it leaves satisfies `Q`.
pub record Returns {ℓ κ ι} {W : Type ℓ} {A : Type κ} (m : Action W A) (w : W) (a : A)
    (Q : W → Type ι) : Type (ℓ ⊔ κ ⊔ ι) where
  pub value : (m w).0 ≡ ok a
  pub after : Q (m w).1

module _ {ℓ κ ι} {W : Type ℓ} {A B : Type κ} where
  pub Returns-bind :
      (m : Action W A) (f : A → Action W B) (w : W) (a : A) (b : B) {Q R : W → Type ι}
      → Returns m w a Q
      → ((w' : W) → Q w' → Returns (f a) w' b R)
      → Returns (m >>= f) w b R
  Returns-bind m f w a b first next = record {
    value = rw first.value (next (m w).1 first.after).value;
    after = rw first.value (next (m w).1 first.after).after;
  }

  -- The first step is a pure computation.
  pub Returns-lift :
      (r : Result A) (f : A → Action W B) (w : W) (a : A) (b : B) {R : W → Type ι}
      → r ≡ ok a
      → Returns (f a) w b R
      → Returns (lift r >>= f) w b R
  Returns-lift r f w a b e next = record { value = rw e next.value; after = rw e next.after }

  pub Returns-then :
      (m : Action W A) (n : Action W B) (w : W) (a : A) (b : B) {Q R : W → Type ι}
      → Returns m w a Q
      → ((w' : W) → Q w' → Returns n w' b R)
      → Returns (m >> n) w b R
  Returns-then m n w a b = Returns-bind m (λ _. n) w a b

module _ {ℓ κ ι} {W : Type ℓ} {A : Type κ} where
  pub Returns-labelled :
      (text : String) (m : Action W A) (w : W) (a : A) {Q : W → Type ι}
      → Returns m w a Q
      → Returns (labelled text m) w a Q
  Returns-labelled text m w a r = record { value = rw r.value; after = r.after }

  pub Returns-weaken :
      (m : Action W A) (w : W) (a : A) {Q R : W → Type ι}
      → Returns m w a Q
      → ((w' : W) → Q w' → R w')
      → Returns m w a R
  Returns-weaken m w a r step = record { value = r.value; after = step (m w).1 r.after }

  -- Where an action does what another does from another world.
  pub Returns_of_eq :
      (m n : Action W A) (w w' : W) (a : A) {Q : W → Type ι}
      → m w ≡ n w'
      → Returns n w' a Q
      → Returns m w a Q
  Returns_of_eq m n w w' a {Q} e r = record {
    value = ap (λ x. x.0) e ∙ r.value;
    after = subst Q (sym (ap (λ x. x.1) e)) r.after;
  }
