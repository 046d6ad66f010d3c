-- ===== src/Action/Ensures.antt =====
-- What holds after an action, for each way that it may end.
use data_telemetry.Errors.{Result, ok, fail, wrap}
use data_telemetry.Prelude.{String, ◌≡◌, refl}
use data_telemetry.Action.{Action, lift, labelled, follow, ◌>>=◌}

-- `Q` of the result and the world after a success, `E` of the world after an error.
abbrev pub Post {ℓ κ ι} :
    {W : Type ℓ} {A : Type κ} → (A → W → Type ι) → (W → Type ι) → Result A × W → Type ι
Post Q E (ok a, w) = Q a w
Post Q E (fail e, w) = E w

module _ {ℓ κ ι} {W : Type ℓ} {A B : Type κ} where
  Post-follow :
      (f : A → Action W B) (Q : A → W → Type ι) (R : B → W → Type ι) (E : W → Type ι)
      (r : Result A × W)
      → Post Q E r
      → ((a : A) (w : W) → Q a w → Post R E (f a w))
      → Post R E (follow f r.0 r.1)
  Post-follow f Q R E (ok a, w) p next = next a w p
  Post-follow f Q R E (fail e, w) p next = p

  pub Post-bind :
      (m : Action W A) (f : A → Action W B) (w : W) (Q : A → W → Type ι) (R : B → W → Type ι)
      (E : W → Type ι)
      → Post Q E (m w)
      → ((a : A) (w' : W) → Q a w' → Post R E (f a w'))
      → Post R E ((m >>= f) w)
  Post-bind m f w Q R E p next = Post-follow f Q R E (m w) p next

  -- The first step is a pure computation.
  pub Post-lift :
      (r : Result A) (f : A → Action W B) (w : W) (R : B → W → Type ι) (E : W → Type ι)
      → E w
      → ((a : A) → r ≡ ok a → Post R E (f a w))
      → Post R E ((lift r >>= f) w)
  Post-lift (ok a) f w R E e next = next a refl
  Post-lift (fail x) f w R E e next = e

module _ {ℓ κ ι} {W : Type ℓ} {A : Type κ} where
  pub Post-weaken :
      (Q R : A → W → Type ι) (E F : W → Type ι) (r : Result A × W)
      → ((a : A) (w : W) → Q a w → R a w)
      → ((w : W) → E w → F w)
      → Post Q E r
      → Post R F r
  Post-weaken Q R E F (ok a, w) onto rest p = onto a w p
  Post-weaken Q R E F (fail e, w) onto rest p = rest w p

  -- What holds however the action ends holds of the world that it leaves.
  pub Post_world : (E : W → Type ι) (r : Result A × W) → Post (λ a w. E w) E r → E r.1
  Post_world E (ok a, w) p = p
  Post_world E (fail e, w) p = p

  pub Post-of_world : (E : W → Type ι) (r : Result A × W) → E r.1 → Post (λ a w. E w) E r
  Post-of_world E (ok a, w) p = p
  Post-of_world E (fail e, w) p = p

-- The action keeps a property of the world, however it ends.
abbrev pub Keeps : {W A : Type 0} → (W → Type 0) → Action W A → Type 0
Keeps P m = (w : _) → P w → Post (λ a w'. P w') P (m w)

module _ {W A B : Type 0} (P : W → Type 0) where
  pub Keeps-bind :
      (m : Action W A) (f : A → Action W B)
      → Keeps P m
      → ((a : A) → Keeps P (f a))
      → Keeps P (m >>= f)
  Keeps-bind m f k next w h =
      Post-bind m f w (λ a w'. P w') (λ b w'. P w') P (k w h) (λ a w' h'. next a w' h')

module _ {W A : Type 0} (P : W → Type 0) where
  pub Keeps-labelled : (text : String) (m : Action W A) → Keeps P m → Keeps P (labelled text m)
  Keeps-labelled text m k w h = go (m w) (k w h)
    where
      go : (r : Result A × W) → Post (λ a w'. P w') P r → Post (λ a w'. P w') P (wrap text r.0, r.1)
      go (ok a, w') h' = h'
      go (fail e, w') h' = h'
