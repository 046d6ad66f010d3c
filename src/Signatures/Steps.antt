-- ===== src/Signatures/Steps.antt =====
-- What is computed in the steps of pkg/signature/sigvalidate.go succeeds exactly when each step does.
use data_telemetry.Prelude.{String, ◌≡◌, refl, ◌↔◌}
use data_telemetry.Errors.{Result, ok, fail, wrap, ok-injective}
use data_telemetry.Signatures.{and_after, wrap_error}

module _ {ℓ} {A B : Type ℓ} where
  pub and_after_ok :
      (r : Result A) (f : A → Result B) (b : B)
      → (and_after r f ≡ ok b) ↔ ((a : A) × (r ≡ ok a) × (f a ≡ ok b))
  and_after_ok (ok a) f b = (λ h. (a, refl, h), λ (x, e, h). rw (ok-injective a x e) h)
  and_after_ok (fail e) f b = (λ h. cc, λ (x, e', h). cc)

module _ {ℓ} {A : Type ℓ} where
  pub wrap_ok : (text : String) (r : Result A) (a : A) → (wrap text r ≡ ok a) ↔ (r ≡ ok a)
  wrap_ok text (ok x) a = (λ h. h, λ h. h)
  wrap_ok text (fail e) a = (λ h. cc, λ h. cc)

  pub wrap_error_ok :
      (text : String) (r : Result A) (a : A) → (wrap_error text r ≡ ok a) ↔ (r ≡ ok a)
  wrap_error_ok text (ok x) a = (λ h. h, λ h. h)
  wrap_error_ok text (fail e) a = (λ h. cc, λ h. cc)
